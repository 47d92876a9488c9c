-- ===== src/Version.antt =====
-- Operand and Liberty version strings: the functions of utils/utils.go that check and compare them.
-- A Go slice or index that is out of range panics: such a call has no value here.
pub mod Compare
pub mod Order
mod Tests
use open_liberty_operator.Common.{
  ℕ, zero, suc, Str, codes, ◌==◌, str_eq, str_beq, int_eq, nat_eq, Bool, true, false, not, ◌&&◌,
  ◌||◌, List, [], ◌∷◌, ◌++◌, Option, none, some, ℤ, pos, ◌-ℤ◌, wrap64, Result, ok, err, has_byte,
  split, is_digit, parse_int, int_value, if◌then◌else◌, length, ◌≡◌, refl, Comparable,
}

-- `GetFirstNumberFromString`: the leading digits.
unfoldable pub first_number : Str → Str
unfolding is_digit
first_number [] = []
first_number (c ∷ s) = let rest = first_number s in if is_digit c then c ∷ rest else []

starts_with_v : Str → Bool
starts_with_v [] = false
starts_with_v (c ∷ s) = c == b'v'

-- `version[1:]`.
abbrev pub tail_of : Str → Str
tail_of [] = []
tail_of (c ∷ s) = s

-- `IsOperandVersionString`.
unfoldable pub is_operand_version_string : Str → Bool
unfolding has_byte starts_with_v split
is_operand_version_string version =
    if not (has_byte b'_' version)
    then false
    else if not (starts_with_v version)
    then false
    else length (split b'_' version) == 3

all_numbered : List Str → Bool
unfolding first_number
all_numbered [] = true
all_numbered (v ∷ vs) = not (length (first_number v) == 0) && all_numbered vs

-- `IsValidOperandVersion`.
unfoldable pub is_valid_operand_version : Str → Bool
unfolding has_byte starts_with_v split all_numbered
is_valid_operand_version version =
    if length version == 0
    then false
    else if not (starts_with_v version)
    then false
    else if not (has_byte b'_' (tail_of version))
    then false
    else if not (length (split b'_' (tail_of version)) == 3)
    then false
    else all_numbered (split b'_' (tail_of version))

-- The number that a part of a version starts with; the error of `ParseInt` is dropped.
unfoldable pub part_number : Str → ℤ
unfolding first_number parse_int
part_number part = int_value (parse_int (first_number part))

-- The loop over the parts of the first version; a missing part of the second one panics.
compare_parts : List Str → List Str → Option ℤ
unfolding part_number
compare_parts [] bs = some (pos 0)
compare_parts (a ∷ as') [] = none
compare_parts (a ∷ as') (b ∷ bs) =
    let rest = compare_parts as' bs in
    if not (part_number a == part_number b)
    then some (wrap64 (part_number a -ℤ part_number b))
    else rest

-- `CompareOperandVersion`; `a[1:]` of an empty text panics.
unfoldable pub compare_operand_version : Str → Str → Option ℤ
unfolding compare_parts split
compare_operand_version [] b = none
compare_operand_version (x ∷ a) [] = none
compare_operand_version (x ∷ a) (y ∷ b) = compare_parts (split b'_' a) (split b'_' b)

-- The loop of `CompareLibertyVersion`, which skips the parts 1 and 2.
compare_liberty_parts : ℕ → List Str → List Str → Option ℤ
unfolding part_number
compare_liberty_parts i [] bs = some (pos 0)
compare_liberty_parts i (a ∷ as') [] =
    let rest = compare_liberty_parts (suc i) as' [] in if i == 1 || i == 2 then rest else none
compare_liberty_parts i (a ∷ as') (b ∷ bs) =
    let rest = compare_liberty_parts (suc i) as' bs in
    if i == 1 || i == 2
    then rest
    else if not (part_number a == part_number b)
    then some (wrap64 (part_number a -ℤ part_number b))
    else rest

-- `CompareLibertyVersion`.
unfoldable pub compare_liberty_version : Str → Str → Option ℤ
unfolding compare_liberty_parts split
compare_liberty_version a b = compare_liberty_parts 0 (split b'.' a) (split b'.' b)

pub data VersionError : Type 0 where
  not_semantic not_three_arguments build_data_too_early : VersionError

-- The constant `OperandVersion`.
abbrev pub operand_version : Str
operand_version = codes "1.6.2"

-- The loop of `GetOperandVersionString` over the arguments, behind the text so far.
version_from : Str → List Str → Result VersionError Str
unfolding first_number
version_from done [] = ok done
version_from done (v ∷ []) = ok (done ++ first_number v)
version_from done (v ∷ w ∷ vs) =
    let rest = version_from (done ++ (v ++ codes "_")) (w ∷ vs) in
    if not (v == first_number v) then err build_data_too_early else rest

-- `GetOperandVersionString` for the version constant `semantic`.
unfoldable pub operand_version_string : Str → Result VersionError Str
unfolding has_byte split version_from
operand_version_string semantic =
    if not (has_byte b'.' semantic)
    then err not_semantic
    else if not (length (split b'.' semantic) == 3)
    then err not_three_arguments
    else version_from (codes "v") (split b'.' semantic)

operand_version_string_test : operand_version_string operand_version ≡ ok (codes "v1_6_2")
unfolding operand_version_string str_beq
operand_version_string_test = refl

compare_operand_version_test :
    compare_operand_version (codes "v1_10_0") (codes "v1_4_0-beta") ≡ some (pos 6)
unfolding compare_operand_version
compare_operand_version_test = refl

is_valid_operand_version_test : is_valid_operand_version (codes "v1_4_0alpha") ≡ true
unfolding is_valid_operand_version
is_valid_operand_version_test = refl
