-- ===== src/Ltpa/Names.antt =====
-- Names of the shared LTPA resources: `getLTPAMetadataName`, of which the tracker and the environment
-- variables are texts. The random suffixes are a list of draws; for which names the client answers that
-- there is no Secret is an input.
mod Drawn
mod Tests
use open_liberty_operator.Common.{
  ℕ, suc, Str, codes, ◌++◌, ◌==◌, str_eq, nat_eq, Bool, true, false, not, ◌&&◌, ◌||◌, List, [], ◌∷◌,
  Option, none, some, ℤ, pos, negsuc, int_eq, length, has_substring, if◌then◌else◌, ok, err, leb,
}
use open_liberty_operator.Utils.{
  get_comma_separated_array, get_comma_separated_string, comma_separated_string_contains,
  is_lower_alphanumeric_suffix,
}

abbrev resource_suffix_length : ℕ
resource_suffix_length = 5

-- The loop over the suffixes of the environment variable, given the tracked suffixes.
unfoldable pub predetermined_suffix : Str → List Str → Option Str
predetermined_suffix resources [] = none
predetermined_suffix resources (suffix ∷ suffixes) =
    let rest = predetermined_suffix resources suffixes in
    if length suffix == resource_suffix_length
      && is_lower_alphanumeric_suffix suffix
      && not (has_substring suffix resources)
    then some (b'-' ∷ suffix)
    else rest

-- `LTPAResource`.
pub data LtpaResource : Type 0 where
  ltpa_key ltpa_config : LtpaResource

abbrev pub suffixes_variable : LtpaResource → Str
suffixes_variable ltpa_key = codes "LTPA_KEY_RESOURCE_SUFFIXES"
suffixes_variable ltpa_config = codes "LTPA_CONFIG_RESOURCE_SUFFIXES"

-- `hasResourceSuffixesEnv`, of the names and values of the environment variables.
unfoldable pub has_resource_suffixes_env : List (Str × Str) → Str → Option Str
has_resource_suffixes_env [] name = none
has_resource_suffixes_env ((n, value) ∷ env) name =
    if n == name then some value else has_resource_suffixes_env env name

-- The name of the Secret that is looked for: that of LTPA keys (ltpa-signature.yaml), whatever the type of
-- the resource.
unfoldable pub shared_resource_name : Str → Str
shared_resource_name suffix = codes "olo-managed-ltpa" ++ suffix

-- The loop over random suffixes; `found` is `suffixFoundInCluster`, and no draw is left at `none`.
unfoldable pub draw_suffix : Str → (Str → Bool) → Bool → Str → List Str → Option Str
draw_suffix resources absent found current [] =
    if has_substring current resources || found then none else some current
draw_suffix resources absent found current (d ∷ draws) =
    let rest =
      draw_suffix resources absent (found && not (absent (shared_resource_name d))) d draws in
    if has_substring current resources || found then rest else some current

-- The random part, with its first draw.
unfoldable pub random_suffix : Str → (Str → Bool) → List Str → Option Str
unfolding draw_suffix
random_suffix resources absent [] = none
random_suffix resources absent (d ∷ draws) = draw_suffix resources absent true d draws

-- The name for a path that is not tracked, with the suffixes of the environment variable if it is set.
unfoldable pub new_ltpa_name : Str → Option Str → (Str → Bool) → List Str → Option Str
unfolding predetermined_suffix random_suffix
new_ltpa_name resources suffixes absent draws =
    let drawn = random_suffix resources absent draws in
    elim suffixes [
      | none ↦ drawn
      | some s ↦ elim (predetermined_suffix resources (get_comma_separated_array s)) [
        | none ↦ drawn
        | some name ↦ some name
      ]
    ]

-- `getLTPAMetadataName`, from the tracked paths and suffixes and the environment variables.
unfoldable pub get_ltpa_metadata_name :
    LtpaResource → Str → Str → Str → List (Str × Str) → (Str → Bool) → List Str → Option Str
unfolding new_ltpa_name has_resource_suffixes_env
get_ltpa_metadata_name resource paths resources sub_path env absent draws =
    let loc = comma_separated_string_contains paths sub_path in
    if not (loc == negsuc 0)
    then elim (get_comma_separated_string resources loc) [
      | err e ↦ some []
      | ok suffix ↦ some suffix
    ]
    else new_ltpa_name resources (has_resource_suffixes_env env (suffixes_variable resource)) absent
        draws
