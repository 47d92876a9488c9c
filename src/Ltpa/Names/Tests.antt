-- ===== src/Ltpa/Names/Tests.antt =====
-- Names of LTPA resources on concrete trackers.
use open_liberty_operator.Common.{
  Str, codes, str_beq, str_eq, ◌==◌, ◌||◌, not, Bool, List, [], ◌∷◌, some, ◌≡◌, refl, has_substring,
  has_byte, split,
}
use open_liberty_operator.Utils.{comma_separated_string_contains}
use open_liberty_operator.Ltpa.Names.{get_ltpa_metadata_name, shared_resource_name, ltpa_config}
use open_liberty_operator.Ltpa.Names.Drawn.{Untracked, get_ltpa_metadata_name-Untracked}

abbrev tracked : Str
tracked = codes "-aaaaa,-bbbbb"

-- The Secret of the first suffix is there, and so is an untracked one.
abbrev sample_absent : Str → Bool
sample_absent n = not (n == codes "olo-managed-ltpa-aaaaa" || n == codes "olo-managed-ltpa-ccccc")

abbrev sample_env : List (Str × Str)
sample_env = (codes "LTPA_CONFIG_RESOURCE_SUFFIXES", codes "aaaaa,zz") ∷ []

abbrev sample_draws : List Str
sample_draws = codes "-aaaaa" ∷ codes "-ccccc" ∷ codes "-ddddd" ∷ []

get_ltpa_metadata_name-Untracked_example : Untracked tracked (
    get_ltpa_metadata_name ltpa_config
      (codes "v1_4_0.key.true,v1_4_0.key.false")
      tracked
      (codes "v1_4_0.config.default")
      sample_env
      sample_absent
      (codes "-eeeee" ∷ sample_draws))
unfolding comma_separated_string_contains has_byte split str_beq has_substring shared_resource_name
get_ltpa_metadata_name-Untracked_example =
    get_ltpa_metadata_name-Untracked ltpa_config (codes "v1_4_0.key.true,v1_4_0.key.false") tracked
      (codes "v1_4_0.config.default") sample_env sample_absent (codes "-eeeee") sample_draws refl
      refl

-- A tracked suffix whose Secret is gone clears the flag for good, and the next draw is a Secret that is
-- there.
reuses_present :
    get_ltpa_metadata_name ltpa_config
      (codes "v1_4_0.key.true")
      tracked
      (codes "v1_4_0.config.default")
      []
      sample_absent
      (codes "-eeeee" ∷ codes "-bbbbb" ∷ codes "-ccccc" ∷ [])
    ≡ some (codes "-ccccc")
unfolding get_ltpa_metadata_name comma_separated_string_contains has_byte str_beq has_substring
    shared_resource_name
reuses_present = refl

-- The Secret of the LTPA configuration with the suffix is there, and is not looked for.
abbrev taken_name : Str
taken_name = codes "olo-managed-ltpa-password-ddddd"

config_taken :
    get_ltpa_metadata_name ltpa_config
      (codes "v1_4_0.key.true")
      tracked
      (codes "v1_4_0.config.default")
      []
      (λ n. not (n == taken_name))
      (codes "-eeeee" ∷ codes "-ddddd" ∷ [])
    ≡ some (codes "-ddddd")
unfolding get_ltpa_metadata_name comma_separated_string_contains has_byte str_beq has_substring
    shared_resource_name
config_taken = refl
