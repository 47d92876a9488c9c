-- ===== src/Ltpa/Tests.antt =====
-- A witness of the theorem on the LTPA configuration.
use open_liberty_operator.Common.{
  Str, codes, str_beq, format_nat, format_int, parse_int, ok, Bool, true, false, [], ◌∷◌, Option,
  none, some, refl, arith, ◌⊎◌, ◌≡◌,
}
use open_liberty_operator.Utils.{get_max_time}
use open_liberty_operator.Encryption.{
  get_internal_encryption_key_state, Data, entry_of, missing, present, last_rotation_key,
}
use open_liberty_operator.Ltpa.{
  Store, Leadership, leads, follows, raw_password_key, encryption_rotation_key, password_entry,
  Call,
}
use open_liberty_operator.Ltpa.Config.{generate_ltpa_config}
use open_liberty_operator.Ltpa.Ready.{Ready, no_key}
use open_liberty_operator.Ltpa.Keys.{KeysCall, generate_ltpa_keys}
use open_liberty_operator.Ltpa.Fresh.{Makes, Leads, generate_ltpa_keys-Serves}
use open_liberty_operator.Ltpa.Agree.{Serves, generate_ltpa_config-Serves}

abbrev encode_sample : Str → Option (Str × Bool) → Option Str
encode_sample raw key = some (b'x' ∷ raw)

abbrev sample_call : Leadership → Call
sample_call l = record {
  keys_leader = l;
  config_leader = l;
  again_leader = l;
  sharing_enabled = false;
  using_sharing = false;
  aes = missing;
  password_key = missing;
  encode = encode_sample;
  keys_last_rotation = codes "1700";
  last_key_related_rotation = codes "1700";
  deletes = true;
  writes = true;
  reads_xml = true;
}

abbrev sample_keys : Data
sample_keys = (raw_password_key, codes "secret") ∷ (last_rotation_key, codes "1700") ∷ []

-- The password was encoded for keys of another time.
abbrev stale : Data
stale = (password_entry, codes "old") ∷ (last_rotation_key, codes "1600") ∷ []

abbrev sample_store : Store
sample_store = record {
  keys = present sample_keys;
  plain = present stale;
  keyed = missing;
  xml = none;
}

abbrev sample_ready : Ready (sample_call leads) sample_keys 1700
unfolding entry_of str_beq format_nat
sample_ready = record {
  raw = codes "secret";
  encoded = codes "xsecret";
  leads_config = refl;
  leads_again = refl;
  deletes = refl;
  writes = refl;
  reads_xml = refl;
  has_raw = refl;
  encodes = refl;
  rotation = refl;
  rotated = refl;
  small = omega arith;
}

stale_unkeyed : entry_of encryption_rotation_key stale ≡ none
unfolding entry_of str_beq
stale_unkeyed = refl

sample_time : get_max_time ([] ∷ codes "1700" ∷ []) ≡ ok (codes "1700")
unfolding get_max_time parse_int format_int
sample_time = refl

generate_ltpa_config-Serves_example :
    Serves (sample_call follows) (generate_ltpa_config (sample_call leads) sample_store)
    ⊎ Serves (sample_call follows) (
        generate_ltpa_config
          (sample_call leads)
          (generate_ltpa_config (sample_call leads) sample_store).0)
generate_ltpa_config-Serves_example =
    generate_ltpa_config-Serves (sample_call leads) sample_keys 1700 none sample_ready
      (no_key refl refl) (sample_call follows) refl refl sample_time sample_store refl
      (ground arith) (λ d e. ground (arith, e, stale_unkeyed))

abbrev sample_keys_call : KeysCall
sample_keys_call = record {
  leader = leads;
  sharing_enabled = false;
  aes = missing;
  password_key = missing;
  password = codes "secret";
  create_keys = encode_sample;
  now = 1700;
  writes = true;
}

abbrev lost_keys : Store
lost_keys = record { keys = missing; plain = present stale; keyed = missing; xml = none }

sample-Makes : Makes sample_keys_call
unfolding get_internal_encryption_key_state
sample-Makes = record {
  file = codes "xsecret";
  leads_keys = refl;
  known = refl;
  created = refl;
  writes = refl;
}

sample-Leads : Leads (sample_call leads) (codes "secret") 1700
unfolding format_nat
sample-Leads = record {
  encoded = codes "xsecret";
  leads_config = refl;
  leads_again = refl;
  deletes = refl;
  writes = refl;
  reads_xml = refl;
  encodes = refl;
  rotation = refl;
  small = omega arith;
}

generate_ltpa_keys-Serves_example :
    ((generate_ltpa_keys sample_keys_call lost_keys).1 ≡ ok (format_nat 1700))
    × (Serves (sample_call follows) (
          generate_ltpa_config
            (sample_call leads)
            (generate_ltpa_keys sample_keys_call lost_keys).0)
        ⊎ Serves (sample_call follows) (
            generate_ltpa_config
              (sample_call leads)
              (generate_ltpa_config
                (sample_call leads)
                (generate_ltpa_keys sample_keys_call lost_keys).0).0))
generate_ltpa_keys-Serves_example =
    generate_ltpa_keys-Serves sample_keys_call (sample_call leads) none (sample_call follows)
      lost_keys sample-Makes sample-Leads (no_key refl refl) refl refl sample_time refl
      (ground arith) (λ d e. ground (arith, e, stale_unkeyed))
