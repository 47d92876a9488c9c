-- ===== src/Ltpa/Keys.antt =====
-- Generating the LTPA keys of a namespace: `generateLTPAKeys`.
use open_liberty_operator.Common.{
  ℕ, Str, codes, ◌==◌, str_eq, Bool, not, ◌&&◌, [], ◌∷◌, Option, none, some, format_nat,
  if◌then◌else◌, Result, ok, err,
}
use open_liberty_operator.Encryption.{
  Data, text_at, Lookup, missing, unreadable, present, last_rotation_key, KeyState, not_shared,
  misconfigured, shared, get_internal_encryption_key_state,
}
use open_liberty_operator.Ltpa.{
  Store, Failure, client_error, waits_for_keys, encode_failed, key_misconfigured, Leadership,
  election_fails, leads, follows, raw_password_key, encryption_rotation_key, used_key,
}

-- What a call reads besides the Secrets: the password key, a fresh password, the time in seconds, and
-- `create_keys` for the tool that makes the keys file for a password under an optional key.
pub record KeysCall : Type 0 where
  pub leader : Leadership
  pub sharing_enabled : Bool
  pub aes : Lookup
  pub password_key : Lookup
  pub password : Str
  pub create_keys : Str → Option (Str × Bool) → Option Str
  pub now : ℕ
  pub writes : Bool

abbrev keys_file_name : Str
keys_file_name = codes "ltpa.keys"

-- The entry of the rotation of the key, if there is a key.
unfoldable pub key_rotation : KeyState → Data
key_rotation not_shared = []
key_rotation misconfigured = []
key_rotation KeyState.panics = []
key_rotation (shared key rotation aes) =
    if not (key == []) && not (rotation == []) then (encryption_rotation_key, rotation) ∷ [] else []

-- The data of a new keys Secret.
unfoldable pub keys_data : Str → KeyState → Str → Str → Data
unfolding key_rotation
keys_data password k rotation keys =
    (last_rotation_key, rotation)
    ∷ (raw_password_key, password)
    ∷ (keys_file_name, keys)
    ∷ key_rotation k

abbrev pub keys_state : KeysCall → KeyState
keys_state c = get_internal_encryption_key_state c.sharing_enabled c.aes c.password_key

-- A new keys Secret, by the leader.
unfoldable pub created_keys : KeysCall → Store → Store × Result Failure Str
unfolding keys_data
created_keys c s = elim (keys_state c) [
  | KeyState.panics ↦ (s, err Failure.panics)
  | misconfigured ↦ (s, err key_misconfigured)
  | not_shared ↦ stored
  | shared key rotation aes ↦ stored
]
  where
    stored : Store × Result Failure Str
    stored = elim (c.create_keys c.password (used_key (keys_state c))) [
      | none ↦ (s, err encode_failed)
      | some keys ↦ if not c.writes then (s, err client_error) else (
        record {
          keys = present (keys_data c.password (keys_state c) (format_nat c.now) keys);
          plain = s.plain;
          keyed = s.keyed;
          xml = s.xml;
        },
        ok (format_nat c.now),
      )
    ]

-- `generateLTPAKeys`: the Secrets after it, and the time of the last rotation.
unfoldable pub generate_ltpa_keys : KeysCall → Store → Store × Result Failure Str
unfolding created_keys
generate_ltpa_keys c s = elim s.keys [
  | unreadable ↦ (s, err client_error)
  | missing ↦ elim c.leader [
    | election_fails ↦ (s, err client_error)
    | follows ↦ (s, err waits_for_keys)
    | leads ↦ created_keys c s
  ]
  | present k ↦ elim c.leader [
    | election_fails ↦ (s, err client_error)
    | follows ↦ (s, ok (text_at last_rotation_key k))
    | leads ↦ (s, ok (text_at last_rotation_key k))
  ]
]
