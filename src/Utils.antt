-- ===== src/Utils.antt =====
-- Small functions of utils/utils.go: comma separated lists, times as text, lists, names.
pub mod Times
mod Tests
use open_liberty_operator.Common.{
  ℕ, zero, suc, ◌+◌, ◌-◌, Str, codes, ◌==◌, str_eq, nat_eq, Bool, true, false, not, ◌&&◌, ◌||◌,
  List, [], ◌∷◌, ◌++◌, Option, none, some, ℤ, pos, negsuc, ltb_ℤ, leb_ℤ, Result, ok, err, has_byte,
  split, parse_int, Parsed, parsed, syntax_error, range_error, format_int, length, leb, ltb,
  get_elem?, if◌then◌else◌, take, drop,
}

-- `GetCommaSeparatedArray`.
unfoldable pub get_comma_separated_array : Str → List Str
get_comma_separated_array s = if has_byte b',' s then split b',' s else s ∷ []

pub data CommaError : Type 0 where
  no_element only_one_element element_not_found : CommaError

-- `GetCommaSeparatedString`; no element has a negative index.
unfoldable pub get_comma_separated_string : Str → ℤ → Result CommaError Str
get_comma_separated_string [] i = err no_element
get_comma_separated_string (c ∷ s) i =
    if has_byte b',' (c ∷ s)
    then elim i [
      | pos n ↦ elim (get_elem? (split b',' (c ∷ s)) n) [
        | none ↦ err element_not_found
        | some v ↦ ok v
      ]
      | negsuc n ↦ err element_not_found
    ]
    else elim i [
      | pos n ↦ if n == 0 then ok (c ∷ s) else err only_one_element
      | negsuc n ↦ err only_one_element
    ]

-- The loop of `CommaSeparatedStringContains`.
unfoldable pub index_of : Str → ℕ → List Str → ℤ
index_of value i [] = negsuc 0
index_of value i (label ∷ labels) =
    let rest = index_of value (suc i) labels in if value == label then pos i else rest

-- `CommaSeparatedStringContains`; -1 when the value is none of the elements.
unfoldable pub comma_separated_string_contains : Str → Str → ℤ
unfolding index_of
comma_separated_string_contains s value =
    if has_byte b',' s
    then index_of value 0 (split b',' s)
    else if s == value
    then pos 0
    else negsuc 0

-- `IsLowerAlphanumericSuffix`.
unfoldable pub is_lower_alphanumeric_suffix : Str → Bool
is_lower_alphanumeric_suffix [] = true
is_lower_alphanumeric_suffix (c ∷ s) =
    (leb b'0' c && leb c b'9' || leb b'a' c && leb c b'z') && is_lower_alphanumeric_suffix s

-- `strconv.Atoi`: no value beside an error.
abbrev pub atoi : Str → Option ℤ
atoi s = elim (parse_int s) [ parsed z ↦ some z | syntax_error ↦ none | range_error z ↦ none ]

abbrev pub max_ℤ : ℤ → ℤ → ℤ
max_ℤ a b = if ltb_ℤ a b then b else a

-- The loop of `GetMaxTime`; `none` for an argument that is no number.
unfoldable pub max_time_from : ℤ → List Str → Option ℤ
max_time_from best [] = some best
max_time_from best ([] ∷ args) = max_time_from (max_ℤ best (pos 0)) args
max_time_from best ((c ∷ s) ∷ args) = elim (atoi (c ∷ s)) [
  | none ↦ none
  | some t ↦ max_time_from (max_ℤ best t) args
]

pub data TimeError : Type 0 where
  not_a_number no_arguments : TimeError

-- `GetMaxTime`.
unfoldable pub get_max_time : List Str → Result TimeError Str
unfolding max_time_from
get_max_time args = elim (max_time_from (negsuc 0) args) [
  | none ↦ err not_a_number
  | some best ↦ if leb_ℤ (pos 0) best then ok (format_int best) else err no_arguments
]

-- `CompareStringTimeGreaterThanOrEqual`; `none` for a text that is no number.
unfoldable pub compare_string_time_ge : Str → Str → Option Bool
compare_string_time_ge time1 time2 = elim (atoi time1) [
  | none ↦ none
  | some t1 ↦ elim (atoi time2) [ none ↦ none | some t2 ↦ some (leb_ℤ t2 t1) ]
]

-- `Contains`.
unfoldable pub contains : List Str → Str → Bool
contains [] s = false
contains (v ∷ vs) s = v == s || contains vs s

-- The loop of `Remove` on the array behind the slice: the slice is the first `n` elements. A removal
-- moves the later elements down, in the array too, while the loop still counts to the old
-- length; a removal behind the end of the slice panics.
unfoldable pub remove_loop : Str → ℕ → ℕ → List Str → ℕ → Option (List Str)
remove_loop s zero i array n = some (take n array)
remove_loop s (suc left) i array n =
    let kept = remove_loop s left (suc i) array n in
    let removed =
      remove_loop s left (suc i)
        (take i array ++ (drop (suc i) (take n array) ++ drop (n - 1) array)) (n - 1) in
    elim (get_elem? array i) [
      | none ↦ none
      | some v ↦ if not (v == s) then kept else if leb (suc i) n then removed else none
    ]

-- `Remove`; `none` is a panic.
unfoldable pub remove : List Str → Str → Option (List Str)
unfolding remove_loop
remove list s = remove_loop s (length list) 0 list (length list)

-- `strings.ToUpper` and `strings.ToLower` of an ASCII byte.
abbrev pub to_upper : ℕ → ℕ
to_upper c = if leb b'a' c && leb c b'z' then c - 32 else c

abbrev pub to_lower : ℕ → ℕ
to_lower c = if leb b'A' c && leb c b'Z' then c + 32 else c

-- The loop of `parseMountName` behind the first byte or not, and behind an upper case byte or not.
unfoldable pub mount_name_from : Bool → Bool → Str → Str
mount_name_from behind previous_upper [] = []
mount_name_from behind previous_upper (c ∷ s) =
    let dashed = b'-' ∷ mount_name_from true previous_upper s in
    let upper = to_lower c ∷ mount_name_from true true s in
    let plain = c ∷ mount_name_from true false s in
    if c == b'.'
    then dashed
    else if c == to_upper c
    then (if not previous_upper && behind then b'-' ∷ upper else upper)
    else plain

-- `parseMountName`, of an ASCII file name.
unfoldable pub parse_mount_name : Str → Str
unfolding mount_name_from
parse_mount_name file_name = mount_name_from false false file_name

-- The second loop of `kebabToCamelCase`.
unfoldable pub camel_from : Str → Str
camel_from [] = []
camel_from (c ∷ []) = if c == b'-' then [] else c ∷ []
camel_from (c ∷ d ∷ s) =
    let skipped = to_upper d ∷ camel_from s in
    let kept = c ∷ camel_from (d ∷ s) in if c == b'-' then skipped else kept

-- `kebabToCamelCase`, of an ASCII text.
unfoldable pub kebab_to_camel_case : Str → Str
unfolding camel_from
kebab_to_camel_case [] = []
kebab_to_camel_case (c ∷ s) =
    let rest = kebab_to_camel_case s in if c == b'-' then rest else camel_from (c ∷ s)

-- `GetRequiredLabels`.
unfoldable pub get_required_labels : Str → Str → List (Str × Str)
get_required_labels name instance_name =
    (codes "app.kubernetes.io/name", name)
    ∷ (
      codes "app.kubernetes.io/instance",
      (if not (instance_name == []) then instance_name else name),
    )
    ∷ (codes "app.kubernetes.io/managed-by", codes "open-liberty-operator")
    ∷ []
