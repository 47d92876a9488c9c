-- ===== src/Utils/Times.antt =====
-- Times as text: the greatest of some, and their order.
use open_liberty_operator.Common.{
  ℕ, ◌<◌, ◌^◌, Str, List, [], ◌∷◌, some, map, ℤ, pos, negsuc, ok, if◌then◌else◌, leb, ltb,
  parse_int, format_nat, format_int, ◌≡◌, ◌≢◌, refl, ◌∙◌, ap, parsed, arith, All,
  parse_int-format_nat, format_nat-ne-nil,
}
use open_liberty_operator.Utils.{max_time_from, get_max_time, max_ℤ, compare_string_time_ge}

pub compare_string_time_ge-format_nat :
    (a b : ℕ)
    → a < 2 ^ 63
    → b < 2 ^ 63
    → compare_string_time_ge (format_nat a) (format_nat b) ≡ some (leb b a)
unfolding compare_string_time_ge
compare_string_time_ge-format_nat a b h k =
    ground (arith, parse_int-format_nat a h, parse_int-format_nat b k)

abbrev pub maximum_from : ℕ → List ℕ → ℕ
maximum_from best [] = best
maximum_from best (n ∷ ns) = maximum_from (if ltb best n then n else best) ns

max_time_text :
    (best : ℤ) (t : Str) (n : ℕ) (args : List Str)
    → t ≢ []
    → parse_int t ≡ parsed (pos n)
    → max_time_from best (t ∷ args) ≡ max_time_from (max_ℤ best (pos n)) args
unfolding max_time_from
max_time_text best [] n args h e = absurd (h refl)
max_time_text best (c ∷ t) n args h e = ground (arith, e)

max-pos : (a b : ℕ) → max_ℤ (pos a) (pos b) ≡ pos (if ltb a b then b else a)
max-pos a b = ground arith

max_time_from-format_nat :
    (best : ℕ) (ns : List ℕ)
    → All (λ n. n < 2 ^ 63) ns
    → max_time_from (pos best) (map format_nat ns) ≡ some (pos (maximum_from best ns))
unfolding max_time_from
max_time_from-format_nat best [] h = refl
max_time_from-format_nat best (n ∷ ns) (h, hs) =
    max_time_text (pos best) (format_nat n) n (map format_nat ns) (format_nat-ne-nil n)
      (parse_int-format_nat n h)
    ∙ ap (λ b. max_time_from b (map format_nat ns)) (max-pos best n)
    ∙ max_time_from-format_nat (if ltb best n then n else best) ns hs

-- `GetMaxTime` of the texts of some numbers, at least one, is the text of their maximum.
pub get_max_time-format_nat :
    (n : ℕ) (ns : List ℕ)
    → n < 2 ^ 63
    → All (λ m. m < 2 ^ 63) ns
    → get_max_time (map format_nat (n ∷ ns)) ≡ ok (format_nat (maximum_from n ns))
unfolding get_max_time format_int
get_max_time-format_nat n ns h hs =
    let first =
      max_time_text (negsuc 0) (format_nat n) n (map format_nat ns) (format_nat-ne-nil n)
        (parse_int-format_nat n h) in
    let rest = max_time_from-format_nat n ns hs in ground (arith, first, rest)

-- An empty argument of `GetMaxTime` counts as 0.
pub get_max_time_empty :
    (ns : List ℕ)
    → All (λ m. m < 2 ^ 63) ns
    → get_max_time ([] ∷ map format_nat ns) ≡ ok (format_nat (maximum_from 0 ns))
unfolding get_max_time max_time_from format_int
get_max_time_empty ns hs = let rest = max_time_from-format_nat 0 ns hs in ground (arith, rest)
