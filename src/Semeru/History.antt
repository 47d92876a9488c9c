-- ===== src/Semeru/History.antt =====
-- What the status references hold over any number of reconciles.
use open_liberty_operator.Common.{
  ℕ, suc, ◌^◌, ◌<◌, ◌≤◌, Str, str_eq, Bool, true, false, List, [], ◌∷◌, ◌++◌, Option, none, some,
  if◌then◌else◌, ◌≡◌, refl, ap, ◌∙◌, arith, inl, inr, ◌⊎◌, All, All-append, format_nat, format_int,
  parse_int-format_nat, append-nil,
}
use open_liberty_operator.Semeru.{
  References, App, get_generation, with_generation, create_new_semeru_generation,
}
use open_liberty_operator.Semeru.Reconcile.{Answers, upgraded}
use open_liberty_operator.Semeru.Marking.{completed_of}

abbrev pub blank : References
blank = record { generation = none; completed = none }

-- The references are at a generation up to `n`; the completed ones are older, and the current one
-- last when it is completed.
pub record Written (n : ℕ) (r : References) : Type 0 where
  pub current : ℕ
  pub older : List ℕ
  pub is_done : Bool
  pub bound : current ≤ n
  pub below : All (λ x. x < current) older
  pub at : r.generation ≡ some (format_nat current)
  pub holds : r.completed ≡ completed_of (older ++ (if is_done then current ∷ [] else []))

abbrev pub IsTracked : ℕ → Option References → Type 0
IsTracked n o = ((r : References) × (o ≡ some r) × Written n r) ⊎ (o ≡ some blank)

abbrev pub IsWritten : ℕ → Option References → Type 0
IsWritten n o = (r : References) × (o ≡ some r) × Written n r

below-weaken : (c d : ℕ) (gs : List ℕ) → c ≤ d → All (λ x. x < c) gs → All (λ x. x < d) gs
below-weaken c d [] h p = tt
below-weaken c d (g ∷ gs) h (p, q) = (omega arith, below-weaken c d gs h q)

below_suc :
    (c : ℕ) (b : Bool) (gs : List ℕ)
    → All (λ x. x < c) gs
    → All (λ x. x < suc c) (gs ++ (if b then c ∷ [] else []))
below_suc c true gs h =
    All-append (λ x. x < suc c) gs (c ∷ []) (below-weaken c (suc c) gs (omega arith) h)
      (omega arith, tt)
below_suc c false gs h = rw append-nil (below-weaken c (suc c) gs (omega arith) h)

pub next_text :
    (c : ℕ) (r : References)
    → suc c < 2 ^ 63
    → r.generation ≡ some (format_nat c)
    → create_new_semeru_generation (some r)
      ≡ some (record { generation = some (format_nat (suc c)); completed = r.completed })
unfolding create_new_semeru_generation format_int
next_text c r b e = ground (arith, e, parse_int-format_nat c (omega arith))

pub first_text :
    create_new_semeru_generation (some blank)
    ≡ some (record { generation = some (format_nat 1); completed = none })
unfolding create_new_semeru_generation format_int
first_text = refl

pub kept_text :
    (r : References) (s : Str) → r.generation ≡ some s → with_generation (some r) ≡ some r
unfolding with_generation
kept_text r s e = ground (arith, e)

pub started_text :
    with_generation (some blank)
    ≡ some (record { generation = some (format_nat 1); completed = none })
unfolding with_generation format_int
started_text = refl

pub create_new-IsWritten :
    (n : ℕ) (o : Option References)
    → suc n < 2 ^ 63
    → IsTracked n o
    → IsWritten (suc n) (create_new_semeru_generation o)
create_new-IsWritten n o b (inl (r, e, w)) = (
  record { generation = some (format_nat (suc w.current)); completed = r.completed },
  ap create_new_semeru_generation e ∙ next_text w.current r (omega (arith, w.bound)) w.at,
  record {
    current = suc w.current;
    older = w.older ++ (if w.is_done then w.current ∷ [] else []);
    is_done = false;
    bound = omega (arith, w.bound);
    below = below_suc w.current w.is_done w.older w.below;
    at = refl;
    holds = rw append-nil (w.holds);
  },
)
create_new-IsWritten n o b (inr e) = (
  record { generation = some (format_nat 1); completed = none },
  ap create_new_semeru_generation e ∙ first_text,
  record {
    current = 1;
    older = [];
    is_done = false;
    bound = omega arith;
    below = tt;
    at = refl;
    holds = refl;
  },
)

with_generation-IsWritten :
    (n : ℕ) (o : Option References) → IsTracked n o → IsWritten (suc n) (with_generation o)
with_generation-IsWritten n o (inl (r, e, w)) = (
  r,
  ap with_generation e ∙ kept_text r (format_nat w.current) w.at,
  record {
    current = w.current;
    older = w.older;
    is_done = w.is_done;
    bound = omega (arith, w.bound);
    below = w.below;
    at = w.at;
    holds = w.holds;
  },
)
with_generation-IsWritten n o (inr e) = (
  record { generation = some (format_nat 1); completed = none },
  ap with_generation e ∙ started_text,
  record {
    current = 1;
    older = [];
    is_done = false;
    bound = omega arith;
    below = tt;
    at = refl;
    holds = refl;
  },
)

pub Written→Tracked : (n : ℕ) (o : Option References) → IsWritten n o → IsTracked n o
Written→Tracked n o w = inl w

pub Written-weaken : (n m : ℕ) (o : Option References) → n ≤ m → IsWritten n o → IsWritten m o
Written-weaken n m o h (r, e, w) = (
  r,
  e,
  record {
    current = w.current;
    older = w.older;
    is_done = w.is_done;
    bound = omega (arith, w.bound);
    below = w.below;
    at = w.at;
    holds = w.holds;
  },
)

pub either_branch :
    {A : Type 0} (P : A → Type 0) (b : Bool) (x y : A) → P x → P y → P (if b then x else y)
either_branch P true x y p q = p
either_branch P false x y p q = q

pub Tracked-weaken : (n m : ℕ) (o : Option References) → n ≤ m → IsTracked n o → IsTracked m o
Tracked-weaken n m o h (inl w) = inl (Written-weaken n m o h w)
Tracked-weaken n m o h (inr e) = inr e

pub upgraded-IsWritten :
    (n : ℕ) (c : Answers) (a : App) (o : Option References)
    → suc (suc (suc n)) < 2 ^ 63
    → IsTracked n o
    → IsWritten (suc (suc (suc n))) (upgraded c a o)
unfolding upgraded
upgraded-IsWritten n c a o b h =
    let w = with_generation-IsWritten n o h in
    let v =
      with_generation-IsWritten (suc (suc n)) (create_new_semeru_generation (with_generation o)) (
        Written→Tracked _ _ (
          create_new-IsWritten (suc n) (with_generation o) (omega arith)
            (Written→Tracked _ _ w))) in
    either_branch (IsWritten (suc (suc (suc n)))) _ _ _ v
      (Written-weaken _ _ (with_generation o) (omega arith) w)

pub get_generation-some :
    (r : References) (s : Str) → r.generation ≡ some s → get_generation (some r) ≡ s
unfolding get_generation
get_generation-some r s e = ground (arith, e)
