-- ===== src/Common/Text.antt =====
-- Go strings as lists of bytes: comparison, search, splitting, joining and numerals.
use Prim.Native.Char.{code}
use Prim.Native.String.{String}
use Prim.Native.Nat.{ℕ, zero, suc, ◌+◌, ◌-◌, ◌*◌, ◌/◌, ◌%◌, ◌^◌, ◌≤◌}
use mathlib.Core.Path.{◌≡◌, refl}
use mathlib.Core.Logic.{◌↔◌}
use mathlib.Core.Bool.{Bool, true, false, not, ◌&&◌, ◌||◌}
use mathlib.Core.List.{List, [], ◌∷◌, ◌++◌}
use native.Mathlib.Omega.{arith}
use open_liberty_operator.Common.Tests.{ltb, leb, ◌==◌, Comparable, if◌then◌else◌, nat_eq}
use open_liberty_operator.Common.Int.{ℤ, pos, negsuc, sub_ℕ}

abbrev pub Str : Type 0
Str = List ℕ

-- The bytes of an ASCII literal.
abbrev pub codes : String → Str
codes String.[] = []
codes (String.◌∷◌ c s) = code c ∷ codes s

unfoldable pub str_beq : Str → Str → Bool
str_beq [] [] = true
str_beq [] (d ∷ t) = false
str_beq (c ∷ s) [] = false
str_beq (c ∷ s) (d ∷ t) = (c == d) && str_beq s t

pub str_beq_iff : (s t : Str) → (str_beq s t ≡ true) ↔ (s ≡ t)
unfolding str_beq
str_beq_iff [] [] = ground arith
str_beq_iff [] (d ∷ t) = ground arith
str_beq_iff (c ∷ s) [] = ground arith
str_beq_iff (c ∷ s) (d ∷ t) = ground (arith, str_beq_iff s t)

instance abbrev pub str_eq : Comparable Str
str_eq = record { same = str_beq; same_iff = str_beq_iff }

-- `strings.Compare(s, t) < 0`: byte order.
unfoldable pub str_ltb : Str → Str → Bool
str_ltb s [] = false
str_ltb [] (d ∷ t) = true
str_ltb (c ∷ s) (d ∷ t) = ltb c d || (c == d) && str_ltb s t

-- `strings.Contains(s, c)` for a one-byte `c`.
unfoldable pub has_byte : ℕ → Str → Bool
has_byte b [] = false
has_byte b (c ∷ s) = c == b || has_byte b s

unfoldable pub has_prefix : Str → Str → Bool
has_prefix [] s = true
has_prefix (p ∷ ps) [] = false
has_prefix (p ∷ ps) (c ∷ s) = c == p && has_prefix ps s

-- `strings.Contains(s, t)`.
unfoldable pub has_substring : Str → Str → Bool
unfolding has_prefix
has_substring t [] = has_prefix t []
has_substring t (c ∷ s) = has_prefix t (c ∷ s) || has_substring t s

-- `strings.TrimPrefix`.
unfoldable pub trim_prefix : Str → Str → Str
unfolding has_prefix
trim_prefix p s = if has_prefix p s then skip p s else s
  where
    skip : Str → Str → Str
    skip [] t = t
    skip (x ∷ xs) [] = []
    skip (x ∷ xs) (c ∷ t) = skip xs t

abbrev pub cons_head : ℕ → List Str → List Str
cons_head c [] = (c ∷ []) ∷ []
cons_head c (w ∷ ws) = (c ∷ w) ∷ ws

-- `strings.Split(s, sep)` for a one-byte separator: always at least one part.
unfoldable pub split : ℕ → Str → List Str
split sep [] = [] ∷ []
split sep (c ∷ s) = let rest = split sep s in if c == sep then [] ∷ rest else cons_head c rest

-- `strings.Join(parts, sep)` for a one-byte separator.
unfoldable pub join : ℕ → List Str → Str
join sep [] = []
join sep (p ∷ []) = p
join sep (p ∷ q ∷ ps) = p ++ (sep ∷ join sep (q ∷ ps))

-- `strings.Trim(s, c)` on the left, and on both sides.
unfoldable pub trim_left : ℕ → Str → Str
trim_left b [] = []
trim_left b (c ∷ s) = let rest = trim_left b s in if c == b then rest else c ∷ s

unfoldable pub trim_right : ℕ → Str → Str
trim_right b [] = []
trim_right b (c ∷ s) = keep (trim_right b s)
  where
    keep : Str → Str
    keep [] = if c == b then [] else c ∷ []
    keep (d ∷ t) = c ∷ d ∷ t

unfoldable pub is_digit : ℕ → Bool
is_digit c = leb b'0' c && leb c b'9'

abbrev pub IsDigit : ℕ → Type 0
IsDigit c = (b'0' ≤ c) × (c ≤ b'9')

-- The digits of `n` in front of `acc`, with fuel above `n`.
unfoldable pub digits : ℕ → ℕ → Str → Str
digits zero n acc = acc
digits (suc f) n acc =
    let rest = digits f (n / 10) ((b'0' + n % 10) ∷ acc) in
    if n / 10 == 0 then (b'0' + n % 10) ∷ acc else rest

-- `strconv.FormatInt(n, 10)`, `%d`.
unfoldable pub format_nat : ℕ → Str
unfolding digits
format_nat n = digits (suc n) n []

unfoldable pub format_int : ℤ → Str
unfolding format_nat
format_int (pos n) = format_nat n
format_int (negsuc n) = b'-' ∷ format_nat (suc n)

unfoldable pub format_bool : Bool → Str
format_bool true = codes "true"
format_bool false = codes "false"

-- What `strconv.ParseInt(s, 10, 64)` returns: a value, a syntax error (with value 0), or a range
-- error (with the nearest int64).
pub data Parsed : Type 0 where
  parsed : ℤ → Parsed
  syntax_error : Parsed
  range_error : ℤ → Parsed

abbrev pub max_u64 : ℕ
max_u64 = 2 ^ 64 - 1

pub data Scanned : Type 0 where
  scanned : ℕ → Scanned
  bad_digit : Scanned
  overflow : Scanned

-- The digits of an unsigned number behind the value `n` of those before them, in uint64.
unfoldable pub scan : Str → ℕ → Scanned
unfolding is_digit
scan [] n = scanned n
scan (c ∷ s) n =
    let m = n * 10 + (c - b'0') in
    let rest = scan s m in
    if not (is_digit c) then bad_digit else if ltb max_u64 m then overflow else rest

unfoldable pub signed : Bool → Scanned → Parsed
signed neg bad_digit = syntax_error
signed false (scanned n) = if ltb n (2 ^ 63) then parsed (pos n) else range_error (pos (2 ^ 63 - 1))
signed true (scanned n) =
    if leb n (2 ^ 63) then parsed (sub_ℕ 0 n) else range_error (negsuc (2 ^ 63 - 1))
signed false overflow = range_error (pos (2 ^ 63 - 1))
signed true overflow = range_error (negsuc (2 ^ 63 - 1))

unsigned : Str → Scanned
unfolding scan
unsigned [] = bad_digit
unsigned (c ∷ s) = scan (c ∷ s) 0

unfoldable pub parse_int : Str → Parsed
unfolding unsigned signed
parse_int [] = syntax_error
parse_int (c ∷ s) =
    if c == b'-'
    then signed true (unsigned s)
    else if c == b'+'
    then signed false (unsigned s)
    else signed false (unsigned (c ∷ s))

-- The value beside the error, where the source drops the error.
abbrev pub int_value : Parsed → ℤ
int_value (parsed z) = z
int_value syntax_error = pos 0
int_value (range_error z) = z

format_nat_1234 : format_nat 1000234 ≡ codes "1000234"
unfolding format_nat
format_nat_1234 = refl

parse_int_tests :
    (parse_int (codes "-42") ≡ parsed (negsuc 41))
    × (parse_int (codes "9223372036854775808") ≡ range_error (pos (2 ^ 63 - 1)))
    × (parse_int (codes "4x") ≡ syntax_error)
unfolding parse_int
parse_int_tests = (refl, refl, refl)

split_test : split b',' (codes "a,,bc") ≡ codes "a" ∷ [] ∷ codes "bc" ∷ []
unfolding split
split_test = refl
