-- ===== src/Semeru/Growth.antt =====
-- How the generation grows with each reconcile.
use open_liberty_operator.Common.{
  ℕ, zero, suc, ◌+◌, ◌*◌, ◌^◌, ◌<◌, ◌≤◌, Str, Bool, true, false, ◌&&◌, List, [], ◌∷◌, ◌++◌, Option,
  none, some, length, if◌then◌else◌, ◌≡◌, refl, sym, ap, ◌∙◌, arith, inl, inr, format_nat,
}
use open_liberty_operator.Semeru.{
  References, App, with_generation, create_new_semeru_generation,
  get_semeru_compiler_name_with_generation,
}
use open_liberty_operator.Semeru.Ports.{upgrade_semeru_health_ports}
use open_liberty_operator.Semeru.Reconcile.{
  Answers, Status, Round, upgraded, bumped, run_round, run_rounds,
}
use open_liberty_operator.Semeru.Marking.{completed_with}
use open_liberty_operator.Semeru.History.{
  IsTracked, blank, next_text, first_text, kept_text, started_text,
}
use open_liberty_operator.Semeru.Step.{
  reconcile-references, mark-Completing, upgraded_references, upgraded_references-IsWritten,
  result-left,
}
use open_liberty_operator.Semeru.Rounds.{
  unmarked, run_round-IsTracked, run_rounds-IsTracked, new_status,
}

-- The references are at a generation, as text; 0 is that of a new application, without a text.
abbrev pub IsAt : ℕ → Option References → Type 0
IsAt zero o = o ≡ some blank
IsAt (suc c) o = (r : References) × (o ≡ some r) × (r.generation ≡ some (format_nat (suc c)))

create_new-IsAt :
    (c : ℕ) (o : Option References)
    → suc c < 2 ^ 63
    → IsAt c o
    → IsAt (suc c) (create_new_semeru_generation o)
create_new-IsAt zero o b e = (_, ap create_new_semeru_generation e ∙ first_text, refl)
create_new-IsAt (suc c) o b (r, e, g) =
    (_, ap create_new_semeru_generation e ∙ next_text (suc c) r b g, refl)

abbrev pub at_least_one : ℕ → ℕ
at_least_one zero = 1
at_least_one (suc c) = suc c

with_generation-IsAt :
    (c : ℕ) (o : Option References) → IsAt c o → IsAt (at_least_one c) (with_generation o)
with_generation-IsAt zero o e = (_, ap with_generation e ∙ started_text, refl)
with_generation-IsAt (suc c) o (r, e, g) =
    (r, ap with_generation e ∙ kept_text r (format_nat (suc c)) g, g)

-- Whether the check for an upgrade finds other ports than the configured ones.
abbrev pub is_upgraded : Answers → App → Option References → Bool
is_upgraded c a o =
    c.enabled
    && upgrade_semeru_health_ports c.health
        (c.containers_of (get_semeru_compiler_name_with_generation a (with_generation o)))

-- The generation behind a reconcile: one more for a new image, at least 1, and one more for an upgrade.
abbrev pub next_generation : Bool → Bool → ℕ → ℕ
next_generation image_changed upgrade c =
    let changed = if image_changed then suc c else c in
    if upgrade then suc (at_least_one changed) else at_least_one changed

upgraded-IsAt :
    (c : ℕ) (x : Answers) (a : App) (o : Option References)
    → suc (suc c) < 2 ^ 63
    → IsAt c o
    → IsAt (if is_upgraded x a o then suc (at_least_one c) else at_least_one c) (upgraded x a o)
upgraded-IsAt c x a o b h =
    let w = with_generation-IsAt c o h in
    let v =
      with_generation-IsAt (suc (at_least_one c)) (create_new_semeru_generation (with_generation o))
        (create_new-IsAt (at_least_one c) (with_generation o) (bound c b) w) in
    both (is_upgraded x a o) refl v w
  where
    bound : (c : ℕ) → suc (suc c) < 2 ^ 63 → suc (at_least_one c) < 2 ^ 63
    bound zero b = b
    bound (suc c) b = omega arith

    both :
        (u : Bool)
        → is_upgraded x a o ≡ u
        → IsAt
            (suc (at_least_one c))
            (with_generation (create_new_semeru_generation (with_generation o)))
        → IsAt (at_least_one c) (with_generation o)
        → IsAt (if u then suc (at_least_one c) else at_least_one c) (upgraded x a o)
    both true e v w = unfold upgraded in rw e v
    both false e v w = unfold upgraded in rw e w

abbrev generation_of : Option References → Option Str
generation_of none = none
generation_of (some r) = r.generation

-- What comes behind the check for an upgrade keeps the generation.
generation_kept :
    (a : App) (e : Round) (s : Status) (n : ℕ)
    → n + 4 < 2 ^ 63
    → IsTracked n s.references
    → (r : References) × ((run_round a e s).0.references ≡ some r)
      × (generation_of (upgraded_references a e s n) ≡ r.generation)
generation_kept a e s n b h =
    let w = upgraded_references-IsWritten a e s n b h in
    elim (reconcile-references e.answers a (bumped e.image_changed s)) [
      | inl (refs, old, f) ↦ (w.0, unmarked a e s old ∙ refs ∙ w.1, ap generation_of w.1)
      | inr (refs, old, fine) ↦
          let c = mark-Completing (n + 4) (upgraded_references a e s n) b w in
          elim (result-left a e s n c refs old fine b) [
            | inl left ↦ (
              completed_with c.from (c.older ++ (c.current ∷ [])),
              left,
              ap generation_of c.source,
            )
            | inr left ↦ (completed_with c.from (c.current ∷ []), left, ap generation_of c.source)
          ]
    ]

generation-at :
    (k : ℕ) (o : Option References) → 1 ≤ k → IsAt k o → generation_of o ≡ some (format_nat k)
generation-at zero o p h = absurd (omega (arith, p))
generation-at (suc k) o p (r, e, g) = ap generation_of e ∙ g

made-IsAt :
    (k : ℕ) (o : Option References) (r : References)
    → 1 ≤ k
    → o ≡ some r
    → r.generation ≡ some (format_nat k)
    → IsAt k o
made-IsAt zero o r p e g = absurd (omega (arith, p))
made-IsAt (suc k) o r p e g = (r, e, g)

bumped-IsAt :
    (b : Bool) (c : ℕ) (s : Status)
    → suc c < 2 ^ 63
    → IsAt c s.references
    → IsAt (if b then suc c else c) (bumped b s).references
bumped-IsAt true c s h k = create_new-IsAt c s.references h k
bumped-IsAt false c s h k = k

next_generation-range :
    (b u : Bool) (c : ℕ) → (1 ≤ next_generation b u c) × (next_generation b u c ≤ c + 2)
next_generation-range true true c = (omega arith, omega arith)
next_generation-range true false c = (omega arith, omega arith)
next_generation-range false true zero = (omega arith, omega arith)
next_generation-range false true (suc c) = (omega arith, omega arith)
next_generation-range false false zero = (omega arith, omega arith)
next_generation-range false false (suc c) = (omega arith, omega arith)

-- Whether a reconcile of a status finds that its compiler is to be replaced.
abbrev pub replaces : App → Round → Status → Bool
replaces a e s = is_upgraded e.answers a (bumped e.image_changed s).references

run_round-IsAt :
    (a : App) (e : Round) (s : Status) (n c : ℕ)
    → n + 4 < 2 ^ 63
    → c ≤ n
    → IsTracked n s.references
    → IsAt c s.references
    → IsAt (next_generation e.image_changed (replaces a e s) c) (run_round a e s).0.references
run_round-IsAt a e s n c b l h k =
    let c' = if e.image_changed then suc c else c in
    let small : suc (suc c') < 2 ^ 63 = ground (arith, b, l) in
    let up : IsAt (next_generation e.image_changed (replaces a e s) c)
        (upgraded_references a e s n) =
      upgraded-IsAt c' e.answers a (bumped e.image_changed s).references small
        (bumped-IsAt e.image_changed c s (omega (arith, b, l)) k) in
    let (low, high) = next_generation-range e.image_changed (replaces a e s) c in
    let (r, left, same) = generation_kept a e s n b h in
    made-IsAt _ (run_round a e s).0.references r low left
      (sym same ∙ generation-at _ (upgraded_references a e s n) low up)

-- The generation after some reconciles.
IsAt-run_rounds :
    (a : App) (es : List Round) (s : Status) (n c : ℕ)
    → n + 4 * length es < 2 ^ 63
    → c ≤ n
    → IsTracked n s.references
    → IsAt c s.references
    → (d : ℕ) × IsAt d (run_rounds a es s).references × (d ≤ c + 2 * length es)
unfolding run_rounds
IsAt-run_rounds a [] s n c b l h k = (c, k, omega arith)
IsAt-run_rounds a (e ∷ es) s n c b l h k =
    let c' = next_generation e.image_changed (replaces a e s) c in
    let (low, high) = next_generation-range e.image_changed (replaces a e s) c in
    let (d, at, most) =
      IsAt-run_rounds a es (run_round a e s).0 (n + 4) c' (omega (arith, b))
        (omega (arith, high, l)) (run_round-IsTracked a e s n (omega (arith, b)) h)
        (run_round-IsAt a e s n c (omega (arith, b)) l h k) in
    (d, at, omega (arith, most, high))

-- After any reconciles of a new application, fewer than 2^61 in all, the references hold no generation or
-- the text of a number, at most two for each reconcile, and the list of the completed generations is
-- empty or the text of older numbers, with the current one behind them or not. The next reconcile
-- makes the number one greater for a new image, then at least 1, and then one greater if it replaces a
-- compiler whose ports are not the configured ones, whether it succeeds or not.
pub IsAt-run_round :
    (a : App) (es : List Round) (e : Round)
    → 4 * length es + 4 < 2 ^ 63
    → let s = run_rounds a es new_status in
      (c : ℕ) × (c ≤ 2 * length es)
      × IsAt c s.references
      × IsTracked (4 * length es) s.references
      × IsAt (next_generation e.image_changed (replaces a e s) c) (run_round a e s).0.references
IsAt-run_round a es e b =
    let s = run_rounds a es new_status in
    let tracked = run_rounds-IsTracked a es (omega (arith, b)) in
    let (c, at, most) =
      IsAt-run_rounds a es new_status 0 0 (omega (arith, b)) (omega arith) (inr refl) refl in
    (
      c,
      omega (arith, most),
      at,
      tracked,
      run_round-IsAt a e s (4 * length es) c b (omega (arith, most)) tracked at,
    )
