-- ===== src/Semeru/Marking.antt =====
-- Marking the current generation completed, and deleting the older ones, on their texts.
use open_liberty_operator.Common.{
  ℕ, ◌^◌, ◌<◌, Str, codes, str_eq, Bool, true, false, not, ◌||◌, List, [], ◌∷◌, ◌++◌, Option, none,
  some, map, if◌then◌else◌, length, ◌≡◌, ◌≢◌, refl, ap, ◌∙◌, arith, Option-cases, inl, inr, ◌⊎◌,
  All, format_nat, join, append-nil, has_substring, length-append, split, split,
}
use open_liberty_operator.Semeru.{References, App, get_semeru_compiler_name}
use open_liberty_operator.Semeru.Cleanup.{
  Resource, Cleaned, delete_completed_semeru_instances, atoi_value,
}
use open_liberty_operator.Semeru.Reconcile.{mark_completed}
use open_liberty_operator.Semeru.Listed.{
  listed, listed_last, listed_absent, remove_generations-listed, split-listed, deletions,
  atoi-format_nat, delete_older-ne_none, delete_older-Deletes, join-append, map-append_one,
}

-- What the list of the completed generations holds: nothing, or their text.
abbrev pub completed_of : List ℕ → Option Str
completed_of [] = none
completed_of (g ∷ gs) = some (listed (g ∷ gs))

abbrev pub is_nonempty : List ℕ → Bool
is_nonempty [] = false
is_nonempty (g ∷ gs) = true

pub completed_of-append :
    (gs : List ℕ) (c : ℕ) → completed_of (gs ++ (c ∷ [])) ≡ some (listed (gs ++ (c ∷ [])))
completed_of-append [] c = refl
completed_of-append (g ∷ gs) c = refl

abbrev pub completed_with : References → List ℕ → References
completed_with r gs = record { generation = r.generation; completed = completed_of gs }

pub completed_with-listed :
    (r : References) (c : ℕ) (gs : List ℕ)
    → r.generation ≡ some (format_nat c)
    → completed_with r (gs ++ (c ∷ []))
      ≡ record { generation = some (format_nat c); completed = some (listed (gs ++ (c ∷ []))) }
completed_with-listed r c gs e = ground (arith, e, completed_of-append gs c)

listed_more :
    (x c : ℕ) (gs : List ℕ)
    → listed ((x ∷ gs) ++ (c ∷ [])) ≡ listed (x ∷ gs) ++ (codes "," ++ format_nat c)
listed_more x c gs =
    ap (join b',') (map-append_one (x ∷ gs) c)
    ∙ join-append b',' (format_nat x) (format_nat c) (map format_nat gs)

pub listed_one : (c : ℕ) → listed (c ∷ []) ≡ format_nat c
unfolding join
listed_one c = refl

mark_same :
    (c : ℕ) (r : References)
    → r.completed ≡ some (format_nat c)
    → mark_completed (format_nat c) (some r) ≡ (some r, false)
unfolding mark_completed
mark_same c r h = ground (arith, h, str_eq.same_iff (format_nat c) (format_nat c))

mark_listed :
    (c : ℕ) (r : References) (t : Str)
    → r.completed ≡ some t
    → t ≢ format_nat c
    → has_substring (format_nat c) t ≡ true
    → mark_completed (format_nat c) (some r) ≡ (some r, true)
unfolding mark_completed
mark_listed c r t h n s = ground (arith, h, n, s, str_eq.same_iff t (format_nat c))

mark_new :
    (c : ℕ) (r : References) (t : Str)
    → r.completed ≡ some t
    → t ≢ format_nat c
    → has_substring (format_nat c) t ≡ false
    → mark_completed (format_nat c) (some r) ≡ (
      some (record {
        generation = r.generation;
        completed = some (t ++ (codes "," ++ format_nat c));
      }),
      true,
    )
unfolding mark_completed
mark_new c r t h n s = ground (arith, h, n, s, str_eq.same_iff t (format_nat c))

-- Marking completes the current generation, and tells of older ones.
pub mark_text :
    (c : ℕ) (gs : List ℕ) (d : Bool) (r : References)
    → c < 2 ^ 63
    → All (λ x. x < c) gs
    → r.completed ≡ completed_of (gs ++ (if d then c ∷ [] else []))
    → mark_completed (format_nat c) (some r)
      ≡ (some (completed_with r (gs ++ (c ∷ []))), is_nonempty gs)
mark_text c [] false r b l h = unfold mark_completed in ground (arith, h, listed_one c)
mark_text c [] true r b l h = mark_same c r (h ∙ ap some (listed_one c)) ∙ ground (arith, h)
mark_text c (x ∷ gs) false r b l h =
    let t = listed (x ∷ gs) in
    let h' : r.completed ≡ some t = ground (arith, h, append-nil (x ∷ gs)) in
    let s = listed_absent (x ∷ gs) c b l in
    let n : t ≢ format_nat c = λ e. ground (arith, e, s, listed_last [] c, listed_one c) in
    mark_new c r t h' n s ∙ ground (arith, listed_more x c gs)
mark_text c (x ∷ gs) true r b l h =
    let t = listed ((x ∷ gs) ++ (c ∷ [])) in
    let n : t ≢ format_nat c = λ e. ground (
      arith,
      e,
      listed_more x c gs,
      ap length (listed_more x c gs),
      length-append (listed (x ∷ gs)) (codes "," ++ format_nat c),
    ) in
    mark_listed c r t h n (listed_last (x ∷ gs) c) ∙ ground (arith, h)

-- What deleting the older generations leaves: all is as it was after a refused deletion, or else the
-- current generation alone is listed, and exactly the resources of the older ones were deleted.
abbrev pub Cleans : Bool → Str → ℕ → List ℕ → References → Cleaned → Type 0
Cleans use_cert_manager compiler c gs r k =
    ((k.succeeded ≡ false) × (k.references ≡ some r))
    ⊎ ((k.succeeded ≡ true)
        × (k.references ≡ some (completed_with r (c ∷ [])))
        × (k.calls ≡ deletions use_cert_manager compiler gs))

pub delete_completed-Cleans :
    (refuses : Resource → Bool) (is_openshift cm_present : Bool) (a : App)
    → (c : ℕ) (gs : List ℕ) (r : References) → c < 2 ^ 63
    → All (λ x. x < c) gs
    → r.generation ≡ some (format_nat c)
    → r.completed ≡ some (listed (gs ++ (c ∷ [])))
    → Cleans
        (not is_openshift || cm_present)
        (get_semeru_compiler_name a)
        c
        gs
        r
        (delete_completed_semeru_instances refuses is_openshift cm_present a (some r))
unfolding delete_completed_semeru_instances
delete_completed-Cleans refuses is_openshift cm_present a c gs r b l e h = ground (
  arith,
  e,
  h,
  atoi-format_nat c b,
  split-listed gs c,
  map-append_one gs c,
  listed_one c,
  remove_generations-listed gs c,
  delete_older-Deletes refuses (not is_openshift || cm_present) (get_semeru_compiler_name a) gs c b
      l,
)

pub delete_completed-succeeds :
    (refuses : Resource → Bool) (is_openshift cm_present : Bool) (a : App) (r : References)
    → ((x : Resource) → refuses x ≡ false)
    → (delete_completed_semeru_instances refuses is_openshift cm_present a (some r)).succeeded
      ≡ true
unfolding delete_completed_semeru_instances
delete_completed-succeeds refuses is_openshift cm_present a r free =
    elim (Option-cases r.completed) [
      | inl e ↦ ground (arith, e)
      | inr (t, e) ↦ ground (
        arith,
        e,
        delete_older-ne_none refuses (not is_openshift || cm_present) (get_semeru_compiler_name a)
            free (atoi_value (elim r.generation [ none ↦ [] | some g ↦ g ])) (split b',' t),
      )
    ]
