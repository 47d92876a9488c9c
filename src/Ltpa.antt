-- ===== src/Ltpa.antt =====
-- Sharing the LTPA keys and their configuration in a namespace
-- (internal/controller/ltpa_keys_sharing.go). Secrets are their data; what the client refuses, who leads
-- and what the key tools answer are inputs.
pub mod Names
pub mod Config
pub mod Keys
mod Fresh
mod Ready
mod Converge
mod Agree
mod Tests
use open_liberty_operator.Common.{
  ℕ, Str, codes, ◌==◌, str_eq, Bool, true, false, not, ◌&&◌, ◌||◌, List, [], ◌∷◌, ◌++◌, Option,
  none, some, ℤ, ltb_ℤ, leb_ℤ, format_int, if◌then◌else◌, is_some,
}
use open_liberty_operator.Utils.{atoi, compare_string_time_ge}
use open_liberty_operator.Encryption.{
  Data, entry_of, text_at, Lookup, missing, unreadable, present, last_rotation_key, KeyState,
  not_shared, misconfigured, shared, get_valid_internal_encryption_key,
  get_internal_encryption_key_state, ValidKey,
}

-- `getLTPAPathOptionsAndChoices`, from whether LTPA keys are shared and a password key is used.
unfoldable pub get_ltpa_path_options_and_choices :
    Bool → Bool → Str → List (List Str) × List (List Str)
get_ltpa_path_options_and_choices key_sharing using_encryption latest =
    if not (latest == codes "v1_4_0") then ([], []) else if not key_sharing then ([], []) else (
      (codes "key" ∷ []) ∷ (codes "config" ∷ []) ∷ [],
      (codes "true" ∷ [])
          ∷ ((if using_encryption then codes "passwordencryption" else codes "default") ∷ [])
          ∷ [],
    )

-- The shared Secrets: of the keys, of the encoded password without and with a password key, and of the
-- server XML, which is there with the label of its last rotation, if it has one.
pub record Store : Type 0 where
  pub keys : Lookup
  pub plain : Lookup
  pub keyed : Lookup
  pub xml : Option (Option Str)

-- Why a call fails.
pub data Failure : Type 0 where
  client_error waits_for_keys unknown_error waits_for_config not_a_time encode_failed : Failure
  key_misconfigured no_last_rotation out_of_sync key_invalid key_without_rotation key_modified :
      Failure
  panics : Failure

-- `reconcileLeader`: an error, or whether this instance leads.
pub data Leadership : Type 0 where
  election_fails leads follows : Leadership

abbrev pub raw_password_key : Str
raw_password_key = codes "rawPassword"

abbrev pub encryption_rotation_key : Str
encryption_rotation_key = codes "encryptionKeyLastRotation"

abbrev pub password_entry : Str
password_entry = codes "password"

-- What one call reads besides the Secrets that it manages. `encode` stands for the key tool: the
-- encoding of a password under an optional key, AES or not.
pub record Call : Type 0 where
  pub keys_leader : Leadership
  pub config_leader : Leadership
  pub again_leader : Leadership
  pub sharing_enabled : Bool
  pub using_sharing : Bool
  pub aes : Lookup
  pub password_key : Lookup
  pub encode : Str → Option (Str × Bool) → Option Str
  pub keys_last_rotation : Str
  pub last_key_related_rotation : Str
  pub deletes : Bool
  pub writes : Bool
  pub reads_xml : Bool

abbrev pub fails : Store → Failure → Store × Option Failure
fails s f = (s, some f)

-- The Secret of the encoded password that a call reads and writes.
abbrev pub password_of : Bool → Store → Lookup
password_of using_sharing s = if using_sharing then s.keyed else s.plain

abbrev pub with_password : Bool → Lookup → Store → Store
with_password using_sharing p s = record {
  keys = s.keys;
  plain = if using_sharing then s.plain else p;
  keyed = if using_sharing then p else s.keyed;
  xml = s.xml;
}

-- The key that encodes the password.
abbrev pub used_key : KeyState → Option (Str × Bool)
used_key (shared key rotation aes) = if not (key == []) then some (key, aes) else none
used_key k = none

-- The data of a new password Secret.
unfoldable pub password_data : Str → KeyState → Str → Data
password_data keys_rotation k encoded = elim k [
  | not_shared ↦ plain
  | misconfigured ↦ plain
  | KeyState.panics ↦ plain
  | shared key rotation aes ↦
      if not (key == []) && not (rotation == [])
      then (encryption_rotation_key, rotation) ∷ plain
      else plain
]
  where
    plain : Data
    plain = (last_rotation_key, keys_rotation) ∷ (password_entry, encoded) ∷ []
