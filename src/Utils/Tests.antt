-- ===== src/Utils/Tests.antt =====
-- The functions of utils/utils.go on concrete arguments.
use open_liberty_operator.Common.{
  Str, codes, str_beq, has_byte, parse_int, format_int, List, [], ◌∷◌, none, some, ok, pos, ◌≡◌,
  refl,
}
use open_liberty_operator.Utils.{
  comma_separated_string_contains, get_max_time, remove, parse_mount_name, kebab_to_camel_case,
}

abbrev ab : List Str
ab = codes "a" ∷ codes "b" ∷ []

remove_one : remove ab (codes "a") ≡ some (codes "b" ∷ [])
unfolding remove str_beq
remove_one = refl

-- Of two occurrences beside each other only the first is removed.
remove_beside : remove (codes "a" ∷ ab) (codes "a") ≡ some ab
unfolding remove str_beq
remove_beside = refl

-- A second occurrence at the end is sliced behind the end of the shorter slice.
remove_panics : remove (codes "a" ∷ codes "b" ∷ codes "a" ∷ []) (codes "a") ≡ none
unfolding remove str_beq
remove_panics = refl

empty_found : comma_separated_string_contains [] [] ≡ pos 0
unfolding comma_separated_string_contains has_byte str_beq
empty_found = refl

mount_of_key : parse_mount_name (codes "serverEnv.xml") ≡ codes "server-env-xml"
unfolding parse_mount_name
mount_of_key = refl

camel : kebab_to_camel_case (codes "-wlp-home-dir") ≡ codes "wlpHomeDir"
unfolding kebab_to_camel_case
camel = refl

empty_time : get_max_time ([] ∷ codes "17" ∷ codes "9" ∷ []) ≡ ok (codes "17")
unfolding get_max_time parse_int format_int
empty_time = refl
