-- ===== src/Version/Compare.antt =====
-- `CompareOperandVersion` against the precedence of version numbers.
use Prim.Native.Nat.{compare, Ordering, min}
use open_liberty_operator.Common.{
  ℕ, zero, suc, ◌+◌, ◌-◌, ◌*◌, ◌^◌, ◌≤◌, Str, ◌==◌, str_eq, nat_eq, int_eq, true, false, not, List,
  [], ◌∷◌, map, Option, some, ℤ, pos, negsuc, ◌-ℤ◌, wrap64, split, scan, signed, max_u64, is_digit,
  IsDigit, All, parse_int, int_value, if◌then◌else◌, length, ◌≡◌, ◌≢◌, refl, sym, ap, ◌∙◌, arith,
  Bool-cases, inl, inr, cons_head, split-ne-nil,
}
use open_liberty_operator.Version.{
  first_number, part_number, compare_parts, compare_operand_version, is_valid_operand_version,
  is_operand_version_string, tail_of,
}

abbrev pub max_i64 : ℕ
max_i64 = 2 ^ 63 - 1

-- The number that digits spell behind `n`, with no bound.
abbrev pub value : ℕ → Str → ℕ
value n [] = n
value n (c ∷ s) = value (n * 10 + (c - b'0')) s

-- What a part of a version counts as: its leading digits, up to the largest int64.
abbrev pub number_of : Str → ℕ
number_of part = min (value 0 (first_number part)) max_i64

-- The numbers of a version string `va_b_c`.
abbrev pub numbers : Str → List ℕ
numbers version = map number_of (split b'_' (tail_of version))

-- Lexicographic order, the precedence of version numbers.
abbrev pub lex : List ℕ → List ℕ → Ordering
lex [] [] = Ordering.eq
lex [] (y ∷ ys) = Ordering.lt
lex (x ∷ xs) [] = Ordering.gt
lex (x ∷ xs) (y ∷ ys) = elim (compare x y) [
  | Ordering.lt ↦ Ordering.lt
  | Ordering.eq ↦ lex xs ys
  | Ordering.gt ↦ Ordering.gt
]

-- How a caller reads the result of a comparison.
abbrev pub sign : ℤ → Ordering
sign (pos zero) = Ordering.eq
sign (pos (suc n)) = Ordering.gt
sign (negsuc n) = Ordering.lt

pub first_number-IsDigit : (s : Str) → All IsDigit (first_number s)
unfolding first_number
first_number-IsDigit [] = tt
first_number-IsDigit (c ∷ s) = ground (arith, first_number-IsDigit s)

le-value : (s : Str) (n : ℕ) → n ≤ value n s
le-value [] n = omega arith
le-value (c ∷ s) n = omega (arith, le-value s (n * 10 + (c - b'0')))

scan-value :
    (s : Str) (n : ℕ)
    → All IsDigit s
    → n ≤ max_u64
    → int_value (signed false (scan s n)) ≡ pos (min (value n s) max_i64)
unfolding scan signed is_digit
scan-value [] n d h = ground arith
scan-value (c ∷ s) n d h =
    ground (arith, scan-value s (n * 10 + (c - b'0')) d.1, le-value s (n * 10 + (c - b'0')))

parse_int-digits :
    (s : Str) → All IsDigit s → int_value (parse_int s) ≡ pos (min (value 0 s) max_i64)
unfolding parse_int
parse_int-digits [] d = ground arith
parse_int-digits (c ∷ s) d = ground (arith, scan-value (c ∷ s) 0 d)

pub part_number-number_of : (part : Str) → part_number part ≡ pos (number_of part)
unfolding part_number
part_number-number_of part = parse_int-digits (first_number part) (first_number-IsDigit part)

sign_of_difference :
    (x y : ℕ) → x ≤ max_i64 → y ≤ max_i64 → x ≢ y → sign (wrap64 (pos x -ℤ pos y)) ≡ compare x y
sign_of_difference x y hx hy h = ground arith

lex_step :
    (x y : ℕ) (rest : Option ℤ) (xs ys : List ℕ)
    → x ≤ max_i64
    → y ≤ max_i64
    → (d : ℤ) × (rest ≡ some d) × (sign d ≡ lex xs ys)
    → (d : ℤ) × ((if not (pos x == pos y) then some (wrap64 (pos x -ℤ pos y)) else rest) ≡ some d)
      × (sign d ≡ lex (x ∷ xs) (y ∷ ys))
lex_step x y rest xs ys hx hy (d, e, l) = elim (Bool-cases (x == y)) [
  | inl same ↦ (d, rw same e, ground (arith, l))
  | inr other ↦ (wrap64 (pos x -ℤ pos y), rw other, ground (arith, sign_of_difference x y hx hy))
]

-- Two versions of as many parts are compared, and their numbers decide.
compare_parts-lex :
    (as' bs : List Str)
    → length as' ≡ length bs
    → (d : ℤ) × (compare_parts as' bs ≡ some d)
      × (sign d ≡ lex (map number_of as') (map number_of bs))
unfolding compare_parts
compare_parts-lex [] [] h = (pos 0, refl, refl)
compare_parts-lex [] (b ∷ bs) h = absurd (omega arith)
compare_parts-lex (a ∷ as') [] h = absurd (omega arith)
compare_parts-lex (a ∷ as') (b ∷ bs) h =
    rw (part_number-number_of a, part_number-number_of b)
      (lex_step (number_of a) (number_of b) _ (map number_of as') (map number_of bs) (omega arith)
        (omega arith) (compare_parts-lex as' bs (omega arith)))

-- A text with a first byte, whose other bytes make three parts.
abbrev HasThreeParts : Str → Type 0
HasThreeParts [] = ⊥
HasThreeParts (c ∷ s) = length (split b'_' s) ≡ 3

compare-lex_parts :
    (a b : Str)
    → HasThreeParts a
    → HasThreeParts b
    → (d : ℤ) × (compare_operand_version a b ≡ some d) × (sign d ≡ lex (numbers a) (numbers b))
unfolding compare_operand_version
compare-lex_parts [] b h k = absurd h
compare-lex_parts (x ∷ a) [] h k = absurd k
compare-lex_parts (x ∷ a) (y ∷ b) h k = compare_parts-lex _ _ (h ∙ sym k)

valid-HasThreeParts : (a : Str) → is_valid_operand_version a ≡ true → HasThreeParts a
unfolding is_valid_operand_version
valid-HasThreeParts [] h = absurd (cc)
valid-HasThreeParts (c ∷ s) h = ground arith

length-cons_head : (c : ℕ) (ws : List Str) → ws ≢ [] → length (cons_head c ws) ≡ length ws
length-cons_head c [] h = absurd (h refl)
length-cons_head c (w ∷ ws) h = refl

shaped-HasThreeParts : (a : Str) → is_operand_version_string a ≡ true → HasThreeParts a
unfolding is_operand_version_string split
shaped-HasThreeParts [] h = absurd (cc)
shaped-HasThreeParts (c ∷ s) h =
    ground (arith, length-cons_head c (split b'_' s) (split-ne-nil b'_' s))

-- On two valid versions `CompareOperandVersion` does not panic, and the sign of its result is the
-- lexicographic order of their three numbers (each the leading digits of a part, at most 2^63-1).
pub compare_operand_version-lex :
    (a b : Str)
    → is_valid_operand_version a ≡ true
    → is_valid_operand_version b ≡ true
    → (d : ℤ) × (compare_operand_version a b ≡ some d) × (sign d ≡ lex (numbers a) (numbers b))
compare_operand_version-lex a b h k =
    compare-lex_parts a b (valid-HasThreeParts a h) (valid-HasThreeParts b k)

-- The same of texts that `IsOperandVersionString` accepts.
pub compare-lex_shaped :
    (a b : Str)
    → is_operand_version_string a ≡ true
    → is_operand_version_string b ≡ true
    → (d : ℤ) × (compare_operand_version a b ≡ some d) × (sign d ≡ lex (numbers a) (numbers b))
compare-lex_shaped a b h k =
    compare-lex_parts a b (shaped-HasThreeParts a h) (shaped-HasThreeParts b k)

above_step :
    (x y : ℕ) (rest : Option ℤ) (xs ys : List ℕ) (d : ℤ)
    → x ≤ max_i64
    → y ≤ max_i64
    → (if not (pos x == pos y) then some (wrap64 (pos x -ℤ pos y)) else rest) ≡ some d
    → sign d ≡ Ordering.gt
    → (rest ≡ some d → lex xs ys ≡ Ordering.gt)
    → lex (x ∷ xs) (y ∷ ys) ≡ Ordering.gt
above_step x y rest xs ys d hx hy h s lower = elim (Bool-cases (x == y)) [
  | inl same ↦ ground (arith, same, h, lower)
  | inr other ↦
      let e : wrap64 (pos x -ℤ pos y) ≡ d = ground (arith, other, h) in
      let g : compare x y ≡ Ordering.gt =
        sym (sign_of_difference x y hx hy (ground (arith, other))) ∙ ap sign e ∙ s in
      rw (g, lex) refl
]

compare_parts_above :
    (as' bs : List Str) (d : ℤ)
    → compare_parts as' bs ≡ some d
    → sign d ≡ Ordering.gt
    → lex (map number_of as') (map number_of bs) ≡ Ordering.gt
unfolding compare_parts
compare_parts_above [] bs d h s = absurd (ground arith)
compare_parts_above (a ∷ as') [] d h s = absurd (ground arith)
compare_parts_above (a ∷ as') (b ∷ bs) d h s =
    above_step (number_of a) (number_of b) (compare_parts as' bs) (map number_of as')
      (map number_of bs) d (omega arith) (omega arith)
      (rw (part_number-number_of a, part_number-number_of b, compare_parts) at h) s
      (λ h'. compare_parts_above as' bs d h' s)

-- A positive result of `CompareOperandVersion` says that the first version has the greater numbers,
-- whatever the texts are.
pub compare-lex_above :
    (a b : Str) (d : ℤ)
    → compare_operand_version a b ≡ some d
    → sign d ≡ Ordering.gt
    → lex (numbers a) (numbers b) ≡ Ordering.gt
unfolding compare_operand_version
compare-lex_above [] b d h s = absurd (ground arith)
compare-lex_above (x ∷ a) [] d h s = absurd (ground arith)
compare-lex_above (x ∷ a) (y ∷ b) d h s = compare_parts_above (split b'_' a) (split b'_' b) d h s
