-- ===== src/Sharing/Locate.antt =====
-- The tracker of a resource in the list: the last one of its name.
use open_liberty_operator.Common.{
  ℕ, suc, ◌+◌, Str, ◌==◌, str_eq, str_beq_iff, true, false, List, [], ◌∷◌, ◌++◌, map, Option, some,
  if◌then◌else◌, length, ◌≡◌, ◌≢◌, refl, sym, ap, ◌∙◌, ◌⊎◌, inl, inr, arith, All, Bool-cases,
}
use open_liberty_operator.Tracker.{LeaderTracker, set_owner, clear_owner_if_shares}
use open_liberty_operator.Sharing.{leader_index, take_over}

-- No tracker is of the resource `n`.
abbrev pub NoneNamed : Str → List LeaderTracker → Type 0
NoneNamed n = All (λ t. t.name ≢ n)

-- The list around the last tracker of the resource `n`.
pub record Located (n : Str) (ts : List LeaderTracker) : Type 0 where
  pub before : List LeaderTracker
  pub at : LeaderTracker
  pub after : List LeaderTracker
  pub parts : ts ≡ before ++ (at ∷ after)
  pub named : at.name ≡ n
  pub no_later : NoneNamed n after

pub same_name : (n : Str) (t : LeaderTracker) → t.name ≡ n → (t.name == n) ≡ true
same_name n t h = ground (arith, h, str_beq_iff t.name n)

pub other_name : (n : Str) (t : LeaderTracker) → t.name ≢ n → (t.name == n) ≡ false
other_name n t h = ground (arith, h, str_beq_iff t.name n)

pub leader_index-cases :
    (n : Str) (ts : List LeaderTracker) (i : ℕ) (found : Option (ℕ × LeaderTracker))
    → (NoneNamed n ts × (leader_index n ts i found ≡ found))
      ⊎ ((l : Located n ts) × (leader_index n ts i found ≡ some (i + length l.before, l.at)))
unfolding leader_index
leader_index-cases n [] i found = inl (tt, refl)
leader_index-cases n (t ∷ ts) i found =
    elim (leader_index-cases n ts (suc i) (if t.name == n then some (i, t) else found)) [
      | inr (l, e) ↦ inr (
        record {
          before = t ∷ l.before;
          at = l.at;
          after = l.after;
          parts = ap (◌∷◌ t) l.parts;
          named = l.named;
          no_later = l.no_later;
        },
        ground (arith, e),
      )
      | inl (none_later, e) ↦ elim (Bool-cases (t.name == n)) [
        | inr h ↦ inl ((ground (arith, h, str_beq_iff t.name n), none_later), rw h (rw h at e))
        | inl h ↦ inr (
          record {
            before = [];
            at = t;
            after = ts;
            parts = refl;
            named = ground (arith, h, str_beq_iff t.name n);
            no_later = none_later;
          },
          ground (arith, e, h),
        )
      ]
    ]

-- A list without the resource has no tracker of it.
pub leader_index-none :
    (n : Str) (ts : List LeaderTracker) (i : ℕ) (found : Option (ℕ × LeaderTracker))
    → NoneNamed n ts
    → leader_index n ts i found ≡ found
unfolding leader_index
leader_index-none n [] i found h = refl
leader_index-none n (t ∷ ts) i found (h, hs) =
    rw (other_name n t h) (leader_index-none n ts (suc i) found hs)

-- The tracker found in a list that is put together around it.
pub leader_index-parts :
    (n : Str) (xs ys : List LeaderTracker) (t : LeaderTracker) (i : ℕ)
    (found : Option (ℕ × LeaderTracker))
    → t.name ≡ n
    → NoneNamed n ys
    → leader_index n (xs ++ (t ∷ ys)) i found ≡ some (i + length xs, t)
unfolding leader_index
leader_index-parts n [] ys t i found h hs =
    ground (arith, same_name n t h, leader_index-none n ys (suc i) (some (i, t)) hs)
leader_index-parts n (x ∷ xs) ys t i found h hs =
    ground (
      arith,
      leader_index-parts n xs ys t (suc i) (if x.name == n then some (i, x) else found) h hs,
    )

-- A function on trackers that keeps their names.
abbrev pub KeepsNames : (LeaderTracker → LeaderTracker) → Type 0
KeepsNames f = (t : LeaderTracker) → (f t).name ≡ t.name

pub NoneNamed-map :
    (f : LeaderTracker → LeaderTracker) (n : Str) (ts : List LeaderTracker)
    → KeepsNames f
    → NoneNamed n ts
    → NoneNamed n (map f ts)
NoneNamed-map f n [] k h = tt
NoneNamed-map f n (t ∷ ts) k (h, hs) = (λ e. h (sym (k t) ∙ e), NoneNamed-map f n ts k hs)

pub map-append :
    (f : LeaderTracker → LeaderTracker) (xs ys : List LeaderTracker)
    → map f (xs ++ ys) ≡ map f xs ++ map f ys
map-append f [] ys = refl
map-append f (x ∷ xs) ys = ap (◌∷◌ (f x)) (map-append f xs ys)

pub length-map :
    (f : LeaderTracker → LeaderTracker) (ts : List LeaderTracker) → length (map f ts) ≡ length ts
length-map f [] = refl
length-map f (t ∷ ts) = ap suc (length-map f ts)

pub take_over-parts :
    (a path : Str) (xs ys : List LeaderTracker) (t : LeaderTracker)
    → take_over a path (length xs) (xs ++ (t ∷ ys))
      ≡ map (clear_owner_if_shares a path) xs
        ++ (set_owner a t ∷ map (clear_owner_if_shares a path) ys)
unfolding take_over
take_over-parts a path [] ys t = refl
take_over-parts a path (x ∷ xs) ys t =
    ap (◌∷◌ (clear_owner_if_shares a path x)) (take_over-parts a path xs ys t)
