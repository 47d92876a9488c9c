-- ===== src/Tree/Replace.antt =====
-- `ReplacePath`: a path is migrated to another operand version, along the replace map. The order
-- in which Go iterates over a map is the order of the association list.
use open_liberty_operator.Common.{
  ℕ, zero, suc, Str, ◌==◌, str_eq, nat_eq, Bool, true, false, not, ◌||◌, List, [], ◌∷◌, Option,
  none, some, ℤ, pos, ltb_ℤ, leb_ℤ, Result, ok, err, is_some, if◌then◌else◌, length, map,
}
use open_liberty_operator.Version.{compare_operand_version, is_valid_operand_version}
use open_liberty_operator.Tree.Node.{Entries}
use open_liberty_operator.Tree.Index.{first_segment}
use open_liberty_operator.Tree.Maps.{
  Labels, ReplaceMap, lookup, LatestError, get_latest_operand_version,
}

pub data ReplaceError : Type 0 where
  no_upgrade_path panics out_of_fuel : ReplaceError

infixl 5 ◌>>=◌
abbrev pub ◌>>=◌ :
    {A B : Type 0} → Result ReplaceError A → (A → Result ReplaceError B) → Result ReplaceError B
err e >>= next = err e
ok a >>= next = next a

abbrev pub compared : Str → Str → Result ReplaceError ℤ
compared a b = elim (compare_operand_version a b) [ none ↦ err panics | some d ↦ ok d ]

unfoldable pub insert_version : Str → List Str → Result ReplaceError (List Str)
insert_version k [] = ok (k ∷ [])
insert_version k (j ∷ js) =
    let rest = insert_version k js in
    compared j k >>= λ d. if ltb_ℤ d (pos 0) then rest >>= (λ r. ok (j ∷ r)) else ok (k ∷ j ∷ js)

unfoldable pub sort_versions : List Str → Result ReplaceError (List Str)
unfolding insert_version
sort_versions [] = ok []
sort_versions (k ∷ ks) = sort_versions ks >>= insert_version k

-- `getSortedKeysFromReplaceMap`.
unfoldable pub get_sorted_keys_from_replace_map : ReplaceMap → Result ReplaceError (List Str)
unfolding sort_versions
get_sorted_keys_from_replace_map replace_map = sort_versions (map (λ e. e.0) replace_map)

abbrev pub labels_of : Str → ReplaceMap → Labels
labels_of version replace_map = elim (lookup version replace_map) [ none ↦ [] | some ls ↦ ls ]

-- The guard of the downgrade loop on a replaced path `prev`.
unfoldable pub may_downgrade : Str → Str → Str → Result ReplaceError Bool
may_downgrade version potential latest = compared version potential >>= λ c.
    if ltb_ℤ (pos 0) c then (compared potential latest >>= λ d. ok (leb_ℤ (pos 0) d)) else ok false

-- The inner loop of a downgrade: the first entry that leads down from `path`.
unfoldable pub step_down : Str → Str → Str → Labels → Result ReplaceError (Option Str)
unfolding may_downgrade
step_down latest version path [] = ok none
step_down latest version path ((prev, next) ∷ labels) =
    let rest = step_down latest version path labels in
    if next == path
    then (may_downgrade version (first_segment prev) latest >>= λ b.
        if b then ok (some prev) else rest)
    else rest

-- The loop of a downgrade, while the replace map has the version and the last round changed it.
unfoldable pub downgrade : ℕ → ReplaceMap → Str → Str → Str → Result ReplaceError Str
unfolding step_down
downgrade zero replace_map latest version path = err out_of_fuel
downgrade (suc fuel) replace_map latest version path =
    if not (is_some (lookup version replace_map))
    then ok path
    else step_down latest version path (labels_of version replace_map) >>= elim [
      | none ↦ ok path
      | some prev ↦ elim (first_segment prev == version) [
        | true ↦ ok prev
        | false ↦ downgrade fuel replace_map latest (first_segment prev) prev
      ]
    ]

-- The inner loop of an upgrade.
unfoldable pub step_up : Str → Labels → Str
step_up path [] = path
step_up path ((prev, next) ∷ labels) = if prev == path then next else step_up path labels

-- The loop of an upgrade over the keys from the start index on.
unfoldable pub upgrade : ReplaceMap → Str → List Str → Str → Str → Str
unfolding step_up
upgrade replace_map target [] version path = path
upgrade replace_map target (key ∷ keys) version path =
    let path' = step_up path (labels_of key replace_map) in
    let rest =
      upgrade replace_map target keys (if path' == path then version else first_segment path')
        path' in
    if version == target then path else rest

-- The keys from the index on at which the search for a key above the version stopped: the first
-- such key, or else the last key.
unfoldable pub keys_above : Str → List Str → Result ReplaceError (List Str)
keys_above version [] = ok []
keys_above version (key ∷ []) = compared key version >>= λ d. ok (key ∷ [])
keys_above version (key ∷ next ∷ keys) =
    let rest = keys_above version (next ∷ keys) in
    compared key version >>= λ d. if ltb_ℤ (pos 0) d then ok (key ∷ next ∷ keys) else rest

-- `latestOperandVersion, _ := …`: the error is dropped; a panic is none.
abbrev pub latest_or_empty : Result LatestError Str → Result ReplaceError Str
latest_or_empty (ok v) = ok v
latest_or_empty (err LatestError.comparison_panics) = err panics
latest_or_empty (err e) = ok []

unfoldable pub replace_path : Str → Str → Entries → ReplaceMap → Result ReplaceError Str
unfolding downgrade upgrade keys_above get_sorted_keys_from_replace_map
replace_path path target tree_map replace_map =
    let version = first_segment path in
    get_sorted_keys_from_replace_map replace_map >>= λ sorted_keys.
    if not (is_valid_operand_version version) || not (is_valid_operand_version target)
    then err no_upgrade_path
    else compared version target >>= λ cmp.
        latest_or_empty (get_latest_operand_version tree_map target) >>= λ latest.
        if ltb_ℤ (pos 0) cmp
        then downgrade (suc (suc (length replace_map))) replace_map latest version path
        else if ltb_ℤ cmp (pos 0)
        then (keys_above version sorted_keys >>= λ keys.
            ok (upgrade replace_map target keys version path))
        else ok path
