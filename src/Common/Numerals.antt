-- ===== src/Common/Numerals.antt =====
-- The text of a natural number, read back.
use Prim.Native.Nat.{ℕ, zero, suc, ◌+◌, ◌*◌, ◌<◌, ◌/◌, ◌%◌, ◌^◌}
use mathlib.Core.Path.{◌≡◌, refl, ◌∙◌}
use mathlib.Core.Logic.{◌≢◌, ◌⊎◌, inl, inr}
use mathlib.Core.Bool.{false}
use mathlib.Core.List.{[], ◌∷◌, cons-ne-nil}
use native.Mathlib.Omega.{arith}
use open_liberty_operator.Common.Tests.{◌==◌, nat_eq, Bool-cases}
use open_liberty_operator.Common.Int.{pos}
use open_liberty_operator.Common.Text.{
  Str, digits, format_int, has_substring, format_nat, scan, parse_int, parsed, scanned,
}
use open_liberty_operator.Common.Split.{format_int-Lacks, Lacks, Digits-Lacks, format_nat-IsDigit}
use open_liberty_operator.Common.Substring.{length-format_nat, has_substring-length}

scan-digit :
    (d m n : ℕ) (acc : Str)
    → m * 10 + d ≡ n
    → d < 10
    → n < 2 ^ 63
    → scan ((b'0' + d) ∷ acc) m ≡ scan acc n
unfolding scan
scan-digit d m n acc e h k = ground (arith)

scan-digits : (f n : ℕ) (acc : Str) → n < f → n < 2 ^ 63 → scan (digits f n acc) 0 ≡ scan acc n
unfolding digits
scan-digits zero n acc h k = absurd (omega arith)
scan-digits (suc f) n acc h k = elim (Bool-cases (n / 10 == 0)) [
  | inl e ↦ rw e (scan-digit (n % 10) 0 n acc (ground arith) (omega arith) k)
  | inr e ↦ rw e (
      scan-digits f (n / 10) ((b'0' + n % 10) ∷ acc) (ground arith) (omega arith)
      ∙ scan-digit (n % 10) (n / 10) n acc (omega arith) (omega arith) k)
]

parse_int-digit :
    (s : Str) (n : ℕ)
    → s ≢ []
    → Lacks b'-' s
    → Lacks b'+' s
    → scan s 0 ≡ scanned n
    → n < 2 ^ 63
    → parse_int s ≡ parsed (pos n)
unfolding parse_int
parse_int-digit [] n h l m e k = absurd (h refl)
parse_int-digit (c ∷ s) n h l m e k = ground arith

digits-ne-nil : (f n : ℕ) (acc : Str) → acc ≢ [] → digits f n acc ≢ []
unfolding digits
digits-ne-nil zero n acc h = h
digits-ne-nil (suc f) n acc h = elim (Bool-cases (n / 10 == 0)) [
  | inl e ↦ rw e (cons-ne-nil (b'0' + n % 10) acc)
  | inr e ↦
      rw e (digits-ne-nil f (n / 10) ((b'0' + n % 10) ∷ acc) (cons-ne-nil (b'0' + n % 10) acc))
]

pub format_nat-ne-nil : (n : ℕ) → format_nat n ≢ []
unfolding format_nat digits
format_nat-ne-nil n = elim (Bool-cases (n / 10 == 0)) [
  | inl e ↦ rw e (cons-ne-nil (b'0' + n % 10) [])
  | inr e ↦ rw e (digits-ne-nil n (n / 10) ((b'0' + n % 10) ∷ []) (cons-ne-nil (b'0' + n % 10) []))
]

pub format_nat-Lacks : (b n : ℕ) → (b < b'0') ⊎ (b'9' < b) → b ≢ b'-' → Lacks b (format_nat n)
format_nat-Lacks b n h m = unfold format_int in format_int-Lacks b (pos n) h m

scan-format_nat : (n : ℕ) → n < 2 ^ 63 → scan (format_nat n) 0 ≡ scanned n
unfolding format_nat scan
scan-format_nat n h = scan-digits (suc n) n [] (omega arith) h

-- `strconv.Atoi` gives back the number that `fmt.Sprint` wrote, within int64.
pub parse_int-format_nat : (n : ℕ) → n < 2 ^ 63 → parse_int (format_nat n) ≡ parsed (pos n)
parse_int-format_nat n h =
    parse_int-digit (format_nat n) n (format_nat-ne-nil n) (minus n)
      (format_nat-Lacks b'+' n (inl (omega arith)) (λ e. ground (arith, e))) (scan-format_nat n h) h
  where
    minus : (n : ℕ) → Lacks b'-' (format_nat n)
    minus n = Digits-Lacks b'-' (format_nat n) (inl (omega arith)) (format_nat-IsDigit n)

pub format_nat-injective : (a b : ℕ) → a < 2 ^ 63 → b < 2 ^ 63 → format_nat a ≡ format_nat b → a ≡ b
format_nat-injective a b h k e =
    let p = parse_int-format_nat a h in let q = parse_int-format_nat b k in ground (arith, p, q, e)

-- The text of a number does not occur in the text of a smaller one.
pub format_nat-occurs :
    (a b : ℕ) → a < b → b < 2 ^ 63 → has_substring (format_nat b) (format_nat a) ≡ false
format_nat-occurs a b h k = elim (Bool-cases (has_substring (format_nat b) (format_nat a))) [
  | inr e ↦ e
  | inl e ↦ elim (has_substring-length (format_nat b) (format_nat a) e) [
    | inl shorter ↦ absurd (omega (arith, length-format_nat a b (omega arith)))
    | inr same ↦ absurd (omega (arith, format_nat-injective b a k (omega arith) same))
  ]
]
