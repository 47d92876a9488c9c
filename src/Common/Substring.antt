-- ===== src/Common/Substring.antt =====
-- `strings.Contains`, and `strings.Replace` of one occurrence by nothing.
use Prim.Native.Nat.{ℕ, zero, suc, ◌+◌, ◌≤◌, ◌<◌, ◌/◌, ◌%◌}
use mathlib.Core.Path.{◌≡◌, refl}
use mathlib.Core.Logic.{◌⊎◌, inl, inr}
use mathlib.Core.Bool.{true}
use mathlib.Core.List.{[], ◌∷◌, ◌++◌}
use native.Mathlib.Omega.{arith}
use open_liberty_operator.Common.Tests.{nat_eq, if◌then◌else◌}
use open_liberty_operator.Common.Lists.{length, drop}
use open_liberty_operator.Common.Text.{Str, has_prefix, has_substring, digits, format_nat}
use open_liberty_operator.Common.Split.{Lacks}

-- `strings.Replace(s, old, "", 1)` for an `old` that is not empty.
unfoldable pub remove_first : Str → Str → Str
unfolding has_prefix
remove_first old [] = []
remove_first old (c ∷ s) =
    let rest = remove_first old s in
    if has_prefix old (c ∷ s) then drop (length old) (c ∷ s) else c ∷ rest

pub has_prefix-append : (p s : Str) → has_prefix p (p ++ s) ≡ true
unfolding has_prefix
has_prefix-append [] s = refl
has_prefix-append (c ∷ p) s = ground (arith, has_prefix-append p s)

pub has_prefix_self : (p : Str) → has_prefix p p ≡ true
unfolding has_prefix
has_prefix_self [] = refl
has_prefix_self (c ∷ p) = ground (arith, has_prefix_self p)

drop-append : (p s : Str) → drop (length p) (p ++ s) ≡ s
drop-append [] s = refl
drop-append (c ∷ p) s = drop-append p s

-- An occurrence at the front is the one that is removed.
pub remove_first-append : (c : ℕ) (p s : Str) → remove_first (c ∷ p) ((c ∷ p) ++ s) ≡ s
unfolding remove_first
remove_first-append c p s = ground (arith, has_prefix-append p s, drop-append p s)

pub has_substring-prefix : (t s : Str) → has_prefix t s ≡ true → has_substring t s ≡ true
unfolding has_substring
has_substring-prefix t [] h = h
has_substring-prefix t (c ∷ s) h = ground arith

pub has_substring-append : (t a b : Str) → has_substring t (a ++ (t ++ b)) ≡ true
unfolding has_substring
has_substring-append t [] b = has_substring-prefix t (t ++ b) (has_prefix-append t b)
has_substring-append t (c ∷ a) b = ground (arith, has_substring-append t a b)

pub has_substring-append_right : (t a : Str) → has_substring t (a ++ t) ≡ true
unfolding has_substring
has_substring-append_right t [] = has_substring-prefix t t (has_prefix_self t)
has_substring-append_right t (c ∷ a) = ground (arith, has_substring-append_right t a)

has_prefix-sep :
    (b : ℕ) (t p rest : Str)
    → Lacks b t
    → has_prefix t (p ++ (b ∷ rest)) ≡ true
    → has_prefix t p ≡ true
unfolding has_prefix
has_prefix-sep b [] p rest l h = refl
has_prefix-sep b (c ∷ t) [] rest l h = absurd (ground arith)
has_prefix-sep b (c ∷ t) (d ∷ p) rest l h = ground (arith, has_prefix-sep b t p rest l.1)

-- A text without the separator that occurs in a joined text occurs on one of its sides.
pub has_substring-sep :
    (b c : ℕ) (t p rest : Str)
    → Lacks b (c ∷ t)
    → has_substring (c ∷ t) (p ++ (b ∷ rest)) ≡ true
    → (has_substring (c ∷ t) p ≡ true) ⊎ (has_substring (c ∷ t) rest ≡ true)
unfolding has_substring
has_substring-sep b c t [] rest l h = ground (arith, has_prefix-sep b (c ∷ t) [] rest l)
has_substring-sep b c t (d ∷ p) rest l h =
    ground (arith, has_prefix-sep b (c ∷ t) (d ∷ p) rest l, has_substring-sep b c t p rest l)

has_prefix-length : (t s : Str) → has_prefix t s ≡ true → (length t < length s) ⊎ (t ≡ s)
unfolding has_prefix
has_prefix-length [] [] h = inr refl
has_prefix-length [] (c ∷ s) h = inl (omega arith)
has_prefix-length (c ∷ t) [] h = absurd (ground arith)
has_prefix-length (c ∷ t) (d ∷ s) h = ground (arith, has_prefix-length t s)

-- A text that occurs in another is shorter, or is it.
pub has_substring-length : (t s : Str) → has_substring t s ≡ true → (length t < length s) ⊎ (t ≡ s)
unfolding has_substring
has_substring-length t [] h = has_prefix-length t [] h
has_substring-length t (c ∷ s) h =
    ground (arith, has_prefix-length t (c ∷ s), has_substring-length t s)

digits_longer : (f n : ℕ) (acc : Str) → n < f → length acc < length (digits f n acc)
unfolding digits
digits_longer zero n acc h = absurd (omega arith)
digits_longer (suc f) n acc h = ground (arith, digits_longer f (n / 10) ((b'0' + n % 10) ∷ acc))

length-digits :
    (f g a b : ℕ) (acc out : Str)
    → a < f
    → b < g
    → a ≤ b
    → length acc ≤ length out
    → length (digits f a acc) ≤ length (digits g b out)
unfolding digits
length-digits zero g a b acc out h k l m = absurd (omega arith)
length-digits (suc f) zero a b acc out h k l m = absurd (omega arith)
length-digits (suc f) (suc g) a b acc out h k l m = ground (
  arith,
  digits_longer g (b / 10) ((b'0' + b % 10) ∷ out),
  length-digits f g (a / 10) (b / 10) ((b'0' + a % 10) ∷ acc) ((b'0' + b % 10) ∷ out),
)

-- A greater number has no shorter text.
pub length-format_nat : (a b : ℕ) → a ≤ b → length (format_nat a) ≤ length (format_nat b)
unfolding format_nat
length-format_nat a b h =
    length-digits (suc a) (suc b) a b [] [] (omega arith) (omega arith) h (omega arith)
