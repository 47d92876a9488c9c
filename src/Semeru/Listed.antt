-- ===== src/Semeru/Listed.antt =====
-- The text of the completed generations: the oldest first, and the current one, once it is
-- completed, last.
use open_liberty_operator.Common.{
  ℕ, ◌^◌, ◌<◌, Str, codes, str_eq, Bool, true, false, List, [], ◌∷◌, ◌++◌, none, some, map, ℤ, pos,
  join, split, remove_first, has_substring, has_prefix, length, ◌≡◌, ◌≢◌, refl, ap, ◌∙◌, arith,
  Bool-cases, inl, inr, ◌⊎◌, All, Lacks, format_nat, split-join, append_assoc, length-append,
  remove_first-append, has_substring-append_right, has_substring-sep, format_nat-occurs,
  format_nat-Lacks, format_nat-ne-nil, parse_int-format_nat,
}
use mathlib.Core.List.{cons-ne-nil}
use open_liberty_operator.Semeru.Cleanup.{
  Resource, Deletion, resources_of, delete_resources, delete_older, remove_generation,
  remove_generations, atoi_value,
}

abbrev pub listed : List ℕ → Str
listed gs = join b',' (map format_nat gs)

pub join-append :
    (sep : ℕ) (p q : Str) (ps : List Str)
    → join sep ((p ∷ ps) ++ (q ∷ [])) ≡ join sep (p ∷ ps) ++ (sep ∷ q)
unfolding join
join-append sep p q [] = refl
join-append sep p q (r ∷ ps) =
    ground (arith, join-append sep r q ps, append_assoc p (sep ∷ join sep (r ∷ ps)) (sep ∷ q))

pub map-append_one :
    (gs : List ℕ) (g : ℕ)
    → map format_nat (gs ++ (g ∷ [])) ≡ map format_nat gs ++ (format_nat g ∷ [])
map-append_one [] g = refl
map-append_one (x ∷ gs) g = ap (◌∷◌ (format_nat x)) (map-append_one gs g)

-- The last of the listed generations occurs in the text.
pub listed_last :
    (gs : List ℕ) (g : ℕ) → has_substring (format_nat g) (listed (gs ++ (g ∷ []))) ≡ true
unfolding join
listed_last [] g = has_substring-append_right (format_nat g) []
listed_last (x ∷ gs) g =
    rw (map-append_one gs g, join-append b',' (format_nat x) (format_nat g) (map format_nat gs))
      (rw (← append_assoc (listed (x ∷ gs)) (codes ",") (format_nat g))
        (has_substring-append_right (format_nat g) (listed (x ∷ gs) ++ codes ",")))

absent :
    (c : ℕ) (t : Str) (ps : List Str)
    → Lacks b',' (c ∷ t)
    → All (λ p. has_substring (c ∷ t) p ≡ false) ps
    → has_substring (c ∷ t) (join b',' ps) ≡ false
unfolding join
absent c t [] l h = unfold has_substring has_prefix in refl
absent c t (p ∷ []) l h = h.0
absent c t (p ∷ q ∷ ps) l h = elim (Bool-cases (has_substring (c ∷ t) (join b',' (p ∷ q ∷ ps)))) [
  | inr e ↦ e
  | inl e ↦
      ground (
        arith,
        has_substring-sep b',' c t p (join b',' (q ∷ ps)) l e,
        absent c t (q ∷ ps) l h.1,
        h.0,
      )
]

All-absent :
    (gs : List ℕ) (g : ℕ)
    → g < 2 ^ 63
    → All (λ x. x < g) gs
    → All (λ p. has_substring (format_nat g) p ≡ false) (map format_nat gs)
All-absent [] g b h = tt
All-absent (x ∷ gs) g b (p, h) = (format_nat-occurs x g p b, All-absent gs g b h)

absent_text :
    (t : Str) (ps : List Str)
    → t ≢ []
    → Lacks b',' t
    → All (λ p. has_substring t p ≡ false) ps
    → has_substring t (join b',' ps) ≡ false
absent_text [] ps n l h = absurd (n refl)
absent_text (c ∷ t) ps n l h = absent c t ps l h

pub comma-Lacks : (g : ℕ) → Lacks b',' (format_nat g)
comma-Lacks g = format_nat-Lacks b',' g (inl (omega arith)) (λ e. ground (arith, e))

-- A generation above all that are listed does not occur in the text.
pub listed_absent :
    (gs : List ℕ) (g : ℕ)
    → g < 2 ^ 63
    → All (λ x. x < g) gs
    → has_substring (format_nat g) (listed gs) ≡ false
listed_absent gs g b h =
    absent_text (format_nat g) (map format_nat gs) (format_nat-ne-nil g) (comma-Lacks g)
      (All-absent gs g b h)

removed_front : (d x : Str) → d ≢ [] → remove_generation d (d ++ (b',' ∷ x)) ≡ x
unfolding remove_generation
removed_front [] x n = absurd (n refl)
removed_front (c ∷ d) x n =
    let e : remove_first ((c ∷ d) ++ codes ",") ((c ∷ d) ++ (b',' ∷ x)) ≡ x =
      rw (← append_assoc d (codes ",") x) (remove_first-append c (d ++ codes ",") x) in
    ground (
      arith,
      e,
      str_eq.same_iff ((c ∷ d) ++ (b',' ∷ x)) x,
      λ (p : (c ∷ d) ++ (b',' ∷ x) ≡ x). ap length p,
      length-append d (b',' ∷ x),
    )

listed_cons :
    (x : ℕ) (gs : List ℕ) (g : ℕ)
    → listed (x ∷ (gs ++ (g ∷ []))) ≡ format_nat x ++ (b',' ∷ listed (gs ++ (g ∷ [])))
unfolding join
listed_cons x [] g = refl
listed_cons x (y ∷ gs) g = refl

-- Removing the older generations, the oldest first, leaves the text of the current one.
pub remove_generations-listed :
    (gs : List ℕ) (g : ℕ)
    → remove_generations (map format_nat gs) (listed (gs ++ (g ∷ []))) ≡ format_nat g
unfolding remove_generations
remove_generations-listed [] g = unfold join in refl
remove_generations-listed (x ∷ gs) g =
    ap (remove_generations (map format_nat gs)) (
      ap (remove_generation (format_nat x)) (listed_cons x gs g)
      ∙ removed_front (format_nat x) (listed (gs ++ (g ∷ []))) (format_nat-ne-nil x))
    ∙ remove_generations-listed gs g

pub atoi-format_nat : (n : ℕ) → n < 2 ^ 63 → atoi_value (format_nat n) ≡ pos n
atoi-format_nat n h = rw (parse_int-format_nat n h) refl

All-Lacks : (gs : List ℕ) → All (Lacks b',') (map format_nat gs)
All-Lacks [] = tt
All-Lacks (g ∷ gs) = (comma-Lacks g, All-Lacks gs)

-- Splitting the text gives the generations back.
pub split-listed :
    (gs : List ℕ) (g : ℕ) → split b',' (listed (gs ++ (g ∷ []))) ≡ map format_nat (gs ++ (g ∷ []))
split-listed [] g = split-join b',' (map format_nat (g ∷ [])) (cons-ne-nil _ _) (All-Lacks (g ∷ []))
split-listed (x ∷ gs) g =
    split-join b',' (map format_nat (x ∷ (gs ++ (g ∷ [])))) (cons-ne-nil _ _)
      (All-Lacks (x ∷ (gs ++ (g ∷ []))))

-- The deletions of the resources of some generations.
abbrev pub deletions : Bool → Str → List ℕ → List Resource
deletions use_cert_manager compiler [] = []
deletions use_cert_manager compiler (g ∷ gs) =
    resources_of use_cert_manager (compiler ++ (codes "-" ++ format_nat g))
    ++ deletions use_cert_manager compiler gs

module _ (refuses : Resource → Bool) (use_cert_manager : Bool) (compiler : Str) where
  delete_resources_all :
      (rs : List Resource)
      → (delete_resources refuses rs).1 ≡ true
      → (delete_resources refuses rs).0 ≡ rs
  unfolding delete_resources
  delete_resources_all [] h = refl
  delete_resources_all (r ∷ rs) h = ground (arith, delete_resources_all rs)

  abbrev pub Deletes : List ℕ → Deletion → Type 0
  Deletes gs d =
      (d.marked ≡ none)
      ⊎ ((d.marked ≡ some (map format_nat gs)) × (d.calls ≡ deletions use_cert_manager compiler gs))

  -- The loop marks exactly the generations below the current one and deletes their resources, or
  -- it has failed.
  pub delete_older-Deletes :
      (gs : List ℕ) (g : ℕ)
      → g < 2 ^ 63
      → All (λ x. x < g) gs
      → Deletes gs
          (delete_older refuses use_cert_manager compiler (pos g) (map format_nat (gs ++ (g ∷ []))))
  unfolding delete_older
  delete_older-Deletes [] g b h = ground (arith, atoi-format_nat g b)
  delete_older-Deletes (x ∷ gs) g b (p, h) =
      let rs = resources_of use_cert_manager (compiler ++ (codes "-" ++ format_nat x)) in
      ground (
        arith,
        atoi-format_nat x (omega arith),
        delete_older-Deletes gs g b h,
        delete_resources_all rs,
      )

  -- Nothing fails where no deletion is refused.
  module _ (free : (r : Resource) → refuses r ≡ false) where
    delete_resources-succeeds : (rs : List Resource) → (delete_resources refuses rs).1 ≡ true
    unfolding delete_resources
    delete_resources-succeeds [] = refl
    delete_resources-succeeds (r ∷ rs) = ground (arith, free r, delete_resources-succeeds rs)

    pub delete_older-ne_none :
        (current : ℤ) (gs : List Str)
        → (delete_older refuses use_cert_manager compiler current gs).marked ≢ none
    unfolding delete_older
    delete_older-ne_none current [] = λ e. cc
    delete_older-ne_none current (g ∷ gs) = λ e. ground (
      arith,
      e,
      delete_older-ne_none current gs,
      delete_resources-succeeds (resources_of use_cert_manager (compiler ++ (codes "-" ++ g))),
    )
