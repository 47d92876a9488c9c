-- ===== src/Common/Split.antt =====
-- Laws of splitting and joining, and the text of numerals.
use Prim.Native.Nat.{ℕ, zero, suc, ◌+◌, ◌%◌, ◌/◌, ◌<◌}
use mathlib.Core.Path.{◌≡◌, refl, sym, ap, ◌∙◌}
use mathlib.Core.Logic.{◌≢◌, ◌⊎◌, inl, inr}
use mathlib.Core.Bool.{true, false}
use mathlib.Core.List.{List, [], ◌∷◌, ◌++◌, cons-ne-nil}
use native.Mathlib.Omega.{arith}
use open_liberty_operator.Common.Tests.{◌==◌, nat_eq, Bool-cases}
use open_liberty_operator.Common.Lists.{All}
use open_liberty_operator.Common.Text.{
  Str, has_byte, split, join, cons_head, IsDigit, digits, format_nat, format_int,
}
use open_liberty_operator.Common.Int.{ℤ, pos, negsuc}

-- No byte of the text is `b`.
abbrev pub Lacks : ℕ → Str → Type 0
Lacks b = All (λ c. c ≢ b)

pub has_byte-Lacks : (b : ℕ) (s : Str) → has_byte b s ≡ false → Lacks b s
unfolding has_byte
has_byte-Lacks b [] h = tt
has_byte-Lacks b (c ∷ s) h = ground (arith, has_byte-Lacks b s)

pub Lacks-has_byte : (b : ℕ) (s : Str) → Lacks b s → has_byte b s ≡ false
unfolding has_byte
Lacks-has_byte b [] h = refl
Lacks-has_byte b (c ∷ s) h = ground (arith, Lacks-has_byte b s)

pub has_byte-append_sep : (b : ℕ) (s t : Str) → has_byte b (s ++ (b ∷ t)) ≡ true
unfolding has_byte
has_byte-append_sep b [] t = ground arith
has_byte-append_sep b (c ∷ s) t = ground (arith, has_byte-append_sep b s t)

pub Digits-Lacks : (b : ℕ) (s : Str) → (b < b'0') ⊎ (b'9' < b) → All IsDigit s → Lacks b s
Digits-Lacks b [] h d = tt
Digits-Lacks b (c ∷ s) h (d, ds) = (omega arith, Digits-Lacks b s h ds)

-- The first part of a split ends at the first separator.
pub split-append :
    (sep : ℕ) (p rest : Str) → Lacks sep p → split sep (p ++ (sep ∷ rest)) ≡ p ∷ split sep rest
unfolding split
split-append sep [] rest h = ground arith
split-append sep (c ∷ p) rest h = ground (arith, split-append sep p rest h.1)

pub split-Lacks : (sep : ℕ) (p : Str) → Lacks sep p → split sep p ≡ p ∷ []
unfolding split
split-Lacks sep [] h = refl
split-Lacks sep (c ∷ p) h = ground (arith, split-Lacks sep p h.1)

-- Splitting a join gives the parts back, if there is a part and none holds the separator.
pub split-join :
    (sep : ℕ) (ps : List Str) → ps ≢ [] → All (Lacks sep) ps → split sep (join sep ps) ≡ ps
unfolding join
split-join sep [] h a = absurd (h refl)
split-join sep (p ∷ []) h a = split-Lacks sep p a.0
split-join sep (p ∷ q ∷ ps) h a =
    split-append sep p (join sep (q ∷ ps)) a.0
    ∙ ap (◌∷◌ p) (split-join sep (q ∷ ps) (cons-ne-nil q ps) a.1)

cons_head-ne-nil : (c : ℕ) (ws : List Str) → cons_head c ws ≢ []
cons_head-ne-nil c [] h = cc
cons_head-ne-nil c (w ∷ ws) h = cc

pub split-ne-nil : (sep : ℕ) (s : Str) → split sep s ≢ []
unfolding split
split-ne-nil sep [] = cons-ne-nil [] []
split-ne-nil sep (c ∷ s) = elim (Bool-cases (c == sep)) [
  | inl e ↦ rw e (cons-ne-nil [] (split sep s))
  | inr e ↦ rw e (cons_head-ne-nil c (split sep s))
]

join-cons_head : (sep c : ℕ) (ws : List Str) → join sep (cons_head c ws) ≡ c ∷ join sep ws
unfolding join
join-cons_head sep c [] = refl
join-cons_head sep c (w ∷ []) = refl
join-cons_head sep c (w ∷ v ∷ ws) = refl

join-nil_cons : (sep : ℕ) (ws : List Str) → ws ≢ [] → join sep ([] ∷ ws) ≡ sep ∷ join sep ws
unfolding join
join-nil_cons sep [] h = absurd (h refl)
join-nil_cons sep (w ∷ ws) h = refl

-- Joining the parts of a split gives the text back.
pub join-split : (sep : ℕ) (s : Str) → join sep (split sep s) ≡ s
unfolding split
join-split sep [] = unfold join in refl
join-split sep (c ∷ s) = ground (
  arith,
  join-split sep s,
  join-cons_head sep c (split sep s),
  join-nil_cons sep (split sep s) (split-ne-nil sep s),
)

digits-IsDigit : (f n : ℕ) (acc : Str) → All IsDigit acc → All IsDigit (digits f n acc)
unfolding digits
digits-IsDigit zero n acc h = h
digits-IsDigit (suc f) n acc h =
    let d : IsDigit (b'0' + n % 10) = (omega arith, omega arith) in
    elim (Bool-cases (n / 10 == 0)) [
      | inl e ↦ rw e (d, h)
      | inr e ↦ rw e (digits-IsDigit f (n / 10) ((b'0' + n % 10) ∷ acc) (d, h))
    ]

-- The text of an integer holds digits and a minus sign.
pub format_int-Lacks : (b : ℕ) (z : ℤ) → (b < b'0') ⊎ (b'9' < b) → b ≢ b'-' → Lacks b (format_int z)
unfolding format_int format_nat
format_int-Lacks b (pos n) h m =
    Digits-Lacks b (digits (suc n) n []) h (digits-IsDigit (suc n) n [] tt)
format_int-Lacks b (negsuc n) h m = (
  (λ e. m (sym e)),
  Digits-Lacks b (digits (suc (suc n)) (suc n) []) h (digits-IsDigit (suc (suc n)) (suc n) [] tt),
)

pub format_nat-IsDigit : (n : ℕ) → All IsDigit (format_nat n)
unfolding format_nat
format_nat-IsDigit n = digits-IsDigit (suc n) n [] tt
