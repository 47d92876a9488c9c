-- ===== src/Ltpa/Names/Drawn.antt =====
-- New names of LTPA resources are none that the tracker has, and there is one.
use open_liberty_operator.Common.{
  ℕ, Str, str_eq, int_eq, Bool, true, false, not, ◌&&◌, ◌||◌, List, [], ◌∷◌, Option, none, some,
  negsuc, has_substring, has_prefix, ◌≡◌, refl, arith, has_substring-prefix,
}
use open_liberty_operator.Utils.{get_comma_separated_array, comma_separated_string_contains}
use open_liberty_operator.Ltpa.Names.{
  predetermined_suffix, draw_suffix, random_suffix, get_ltpa_metadata_name, new_ltpa_name,
  has_resource_suffixes_env, suffixes_variable, shared_resource_name, LtpaResource,
}

has_substring-tail :
    (c : ℕ) (t s : Str) → has_substring t s ≡ false → has_substring (c ∷ t) s ≡ false
unfolding has_substring has_prefix
has_substring-tail c t [] h = refl
has_substring-tail c t (d ∷ s) h =
    ground (arith, h, has_substring-tail c t s, has_substring-prefix t s)

-- The loop ends with a suffix that is not part of the text of the tracked ones.
draw_suffix-untracked :
    (resources : Str) (absent : Str → Bool) (found : Bool) (current : Str) (draws : List Str)
    (n : Str)
    → draw_suffix resources absent found current draws ≡ some n
    → has_substring n resources ≡ false
unfolding draw_suffix
draw_suffix-untracked resources absent found current [] n h = ground (arith, h)
draw_suffix-untracked resources absent found current (d ∷ draws) n h = ground (
  arith,
  h,
  draw_suffix-untracked resources absent (found && not (absent (shared_resource_name d))) d draws n,
)

predetermined_suffix-untracked :
    (resources : Str) (suffixes : List Str) (n : Str)
    → predetermined_suffix resources suffixes ≡ some n
    → has_substring n resources ≡ false
unfolding predetermined_suffix
predetermined_suffix-untracked resources [] n h = absurd (ground arith)
predetermined_suffix-untracked resources (s ∷ suffixes) n h = ground (
  arith,
  h,
  has_substring-tail b'-' s resources,
  predetermined_suffix-untracked resources suffixes n,
)

-- Some draw names a Secret that is not in the cluster, and is not part of the text of the tracked ones.
abbrev pub offers : Str → (Str → Bool) → List Str → Bool
offers resources absent [] = false
offers resources absent (d ∷ draws) =
    absent (shared_resource_name d) && not (has_substring d resources)
    || offers resources absent draws

abbrev pub is_ended : Option Str → Bool
is_ended none = false
is_ended (some n) = true

draw_suffix-stops :
    (resources : Str) (absent : Str → Bool) (current : Str) (draws : List Str)
    → has_substring current resources ≡ false
    → draw_suffix resources absent false current draws ≡ some current
unfolding draw_suffix
draw_suffix-stops resources absent current [] h = ground (arith, h)
draw_suffix-stops resources absent current (d ∷ draws) h = ground (arith, h)

draw_suffix-ends :
    (resources : Str) (absent : Str → Bool) (found : Bool) (current : Str) (draws : List Str)
    → offers resources absent draws ≡ true
    → is_ended (draw_suffix resources absent found current draws) ≡ true
unfolding draw_suffix
draw_suffix-ends resources absent found current [] h = absurd (ground arith)
draw_suffix-ends resources absent found current (d ∷ draws) h = ground (
  arith,
  h,
  draw_suffix-stops resources absent d draws,
  draw_suffix-ends resources absent (found && not (absent (shared_resource_name d))) d draws,
)

random_suffix-ends :
    (resources : Str) (absent : Str → Bool) (d : Str) (draws : List Str)
    → offers resources absent draws ≡ true
    → is_ended (random_suffix resources absent (d ∷ draws)) ≡ true
unfolding random_suffix
random_suffix-ends resources absent d draws h = draw_suffix-ends resources absent true d draws h

-- A name is found, and every name that may be found is no part of the text of the tracked ones.
abbrev pub Untracked : Str → Option Str → Type 0
Untracked resources r =
    (is_ended r ≡ true) × ((n : Str) → r ≡ some n → has_substring n resources ≡ false)

new_ltpa_name-Untracked :
    (resources : Str) (suffixes : Option Str) (absent : Str → Bool) (d : Str) (draws : List Str)
    → offers resources absent draws ≡ true
    → Untracked resources (new_ltpa_name resources suffixes absent (d ∷ draws))
unfolding new_ltpa_name random_suffix
new_ltpa_name-Untracked resources none absent d draws o = (
  random_suffix-ends resources absent d draws o,
  draw_suffix-untracked resources absent true d draws,
)
new_ltpa_name-Untracked resources (some s) absent d draws o = (
  ground (arith, random_suffix-ends resources absent d draws o),
  λ n h. ground (
    arith,
    h,
    draw_suffix-untracked resources absent true d draws n,
    predetermined_suffix-untracked resources (get_comma_separated_array s) n,
  ),
)

get_ltpa_metadata_name_new :
    (resource : LtpaResource) (paths resources sub_path : Str) (env : List (Str × Str))
    (absent : Str → Bool) (draws : List Str)
    → comma_separated_string_contains paths sub_path ≡ negsuc 0
    → get_ltpa_metadata_name resource paths resources sub_path env absent draws
      ≡ new_ltpa_name resources
          (has_resource_suffixes_env env (suffixes_variable resource))
          absent
          draws
unfolding get_ltpa_metadata_name
get_ltpa_metadata_name_new resource paths resources sub_path env absent draws p = ground (arith, p)

-- An instance whose path is not tracked gets a name from `getLTPAMetadataName`, for either type of resource,
-- and the name is no part of the text of the tracked suffixes, wherever it comes from: the environment
-- variable or the random suffixes. Some draw after the first is the suffix of no LTPA keys Secret in the
-- cluster, and is not part of that text either.
pub get_ltpa_metadata_name-Untracked :
    (resource : LtpaResource) (paths resources sub_path : Str) (env : List (Str × Str))
    (absent : Str → Bool) (d : Str) (draws : List Str)
    → comma_separated_string_contains paths sub_path ≡ negsuc 0
    → offers resources absent draws ≡ true
    → Untracked resources
        (get_ltpa_metadata_name resource paths resources sub_path env absent (d ∷ draws))
get_ltpa_metadata_name-Untracked resource paths resources sub_path env absent d draws p o =
    rw (get_ltpa_metadata_name_new resource paths resources sub_path env absent (d ∷ draws) p) (
      new_ltpa_name-Untracked resources (has_resource_suffixes_env env (suffixes_variable resource))
        absent d draws o)
