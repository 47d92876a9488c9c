-- ===== src/Version/Order.antt =====
-- The order of versions that `CompareOperandVersion` induces, as its callers rely on it.
use Prim.Native.Nat.{Ordering}
use open_liberty_operator.Common.{
  ℕ, zero, suc, Str, true, List, [], ◌∷◌, some, ℤ, pos, negsuc, ◌≤ℤ◌, ◌≡◌, ◌≢◌, refl, sym, ◌∙◌,
  arith,
}
use open_liberty_operator.Version.{compare_operand_version, is_valid_operand_version}
use open_liberty_operator.Version.Compare.{lex, sign, numbers, compare_operand_version-lex}

abbrev pub flip : Ordering → Ordering
flip Ordering.lt = Ordering.gt
flip Ordering.eq = Ordering.eq
flip Ordering.gt = Ordering.lt

pub lex-flip : (xs ys : List ℕ) → lex ys xs ≡ flip (lex xs ys)
lex-flip [] [] = refl
lex-flip [] (y ∷ ys) = refl
lex-flip (x ∷ xs) [] = refl
lex-flip (x ∷ xs) (y ∷ ys) = ground (arith, lex-flip xs ys)

pub lex_refl : (xs : List ℕ) → lex xs xs ≡ Ordering.eq
lex_refl [] = refl
lex_refl (x ∷ xs) = ground (arith, lex_refl xs)

pub lex_eq : (xs ys : List ℕ) → lex xs ys ≡ Ordering.eq → xs ≡ ys
lex_eq [] [] h = refl
lex_eq [] (y ∷ ys) h = absurd (cc)
lex_eq (x ∷ xs) [] h = absurd (cc)
lex_eq (x ∷ xs) (y ∷ ys) h = ground (arith, lex_eq xs ys)

pub lex_trans :
    (xs ys zs : List ℕ)
    → lex xs ys ≢ Ordering.gt
    → lex ys zs ≢ Ordering.gt
    → lex xs zs ≢ Ordering.gt
lex_trans [] ys [] h k = λ e. cc
lex_trans [] ys (z ∷ zs) h k = λ e. cc
lex_trans (x ∷ xs) [] zs h k = absurd (h refl)
lex_trans (x ∷ xs) (y ∷ ys) [] h k = absurd (k refl)
lex_trans (x ∷ xs) (y ∷ ys) (z ∷ zs) h k = ground (arith, lex_trans xs ys zs)

sign_le : (d : ℤ) → d ≤ℤ pos 0 → sign d ≢ Ordering.gt
sign_le (pos zero) h = λ e. cc
sign_le (pos (suc n)) h = absurd (omega arith)
sign_le (negsuc n) h = λ e. cc

le_sign : (d : ℤ) → sign d ≢ Ordering.gt → d ≤ℤ pos 0
le_sign (pos zero) h = omega arith
le_sign (pos (suc n)) h = absurd (h refl)
le_sign (negsuc n) h = omega arith

sign_eq : (d : ℤ) → sign d ≡ Ordering.eq → d ≡ pos 0
sign_eq (pos zero) h = refl
sign_eq (pos (suc n)) h = absurd (cc)
sign_eq (negsuc n) h = absurd (cc)

-- `CompareOperandVersion(a, b) <= 0`, and the call does not panic.
abbrev pub NotAfter : Str → Str → Type 0
NotAfter a b = (d : ℤ) × (compare_operand_version a b ≡ some d) × (d ≤ℤ pos 0)

NotAfter-lex :
    (a b : Str)
    → is_valid_operand_version a ≡ true
    → is_valid_operand_version b ≡ true
    → NotAfter a b
    → lex (numbers a) (numbers b) ≢ Ordering.gt
NotAfter-lex a b h k (d, e, le) =
    let (d', e', s) = compare_operand_version-lex a b h k in
    λ g. sign_le d le (ground (arith, s, e, e', g))

-- "Not after" is transitive on valid versions.
pub NotAfter-trans :
    (a b c : Str)
    → is_valid_operand_version a ≡ true
    → is_valid_operand_version b ≡ true
    → is_valid_operand_version c ≡ true
    → NotAfter a b
    → NotAfter b c
    → NotAfter a c
NotAfter-trans a b c ha hb hc ab bc =
    let (d, e, s) = compare_operand_version-lex a c ha hc in
    (
      d,
      e,
      le_sign d (
          rw s (
            lex_trans (numbers a) (numbers b) (numbers c) (NotAfter-lex a b ha hb ab)
              (NotAfter-lex b c hb hc bc))),
    )

-- Swapping two valid versions flips the sign of the comparison, and the result is zero exactly when
-- the versions have the same three numbers.
pub compare_operand_version_swap :
    (a b : Str)
    → is_valid_operand_version a ≡ true
    → is_valid_operand_version b ≡ true
    → (d e : ℤ) × (compare_operand_version a b ≡ some d)
      × (compare_operand_version b a ≡ some e)
      × (sign e ≡ flip (sign d))
      × ((d ≡ pos 0) → numbers a ≡ numbers b)
      × (numbers a ≡ numbers b → d ≡ pos 0)
compare_operand_version_swap a b ha hb =
    let (d, p, s) = compare_operand_version-lex a b ha hb in
    let (e, q, t) = compare_operand_version-lex b a hb ha in
    (
      d,
      e,
      p,
      q,
      t ∙ lex-flip (numbers a) (numbers b) ∙ rw s refl,
      λ z. lex_eq (numbers a) (numbers b) (sym s ∙ rw z refl),
      λ same. sign_eq d (s ∙ rw same (lex_refl (numbers b))),
    )
