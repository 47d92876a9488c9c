-- ===== src/Ltpa/Config.antt =====
-- `generateLTPAConfig`.
use open_liberty_operator.Common.{
  Str, ◌==◌, str_eq, not, ◌||◌, [], ◌∷◌, Option, none, some, leb_ℤ, format_int, if◌then◌else◌,
  Result, ok, err,
}
use open_liberty_operator.Utils.{atoi, compare_string_time_ge}
use open_liberty_operator.Encryption.{
  Data, entry_of, text_at, missing, unreadable, present, last_rotation_key, KeyState, not_shared,
  misconfigured, shared, get_valid_internal_encryption_key, get_internal_encryption_key_state,
}
use open_liberty_operator.Ltpa.{
  Store, Failure, client_error, waits_for_keys, unknown_error, waits_for_config, not_a_time,
  encode_failed, key_misconfigured, no_last_rotation, out_of_sync, key_invalid,
  key_without_rotation, key_modified, election_fails, leads, follows, raw_password_key,
  encryption_rotation_key, password_entry, Call, fails, password_of, with_password, used_key,
  password_data,
}

-- An instance that does not lead waits until the XML Secret is as late as the keys.
unfoldable pub follow_config : Call → Store → Option Failure
follow_config c s = if not c.reads_xml then some client_error else elim s.xml [
  | none ↦ some waits_for_config
  | some label ↦ elim label [
    | none ↦ some waits_for_config
    | some time ↦ elim (compare_string_time_ge time c.last_key_related_rotation) [
      | none ↦ some not_a_time
      | some late ↦ if late then none else some waits_for_config
    ]
  ]
]

abbrev pub key_state : Call → KeyState
key_state c = get_internal_encryption_key_state c.sharing_enabled c.aes c.password_key

-- The password Secret with a password from the keys Secret, encoded.
unfoldable pub encoded_config : Call → Store → Data → Str → Store × Result Failure Data
encoded_config c s k raw = elim (key_state c) [
  | KeyState.panics ↦ (s, err Failure.panics)
  | misconfigured ↦ (s, err key_misconfigured)
  | not_shared ↦ stored
  | shared key rotation aes ↦ stored
]
  where
    stored : Store × Result Failure Data
    stored = elim (c.encode raw (used_key (key_state c))) [
      | none ↦ (s, err encode_failed)
      | some e ↦ if not c.writes then (s, err client_error) else (
        with_password c.using_sharing
            (present (password_data (text_at last_rotation_key k) (key_state c) e)) s,
        ok (password_data (text_at last_rotation_key k) (key_state c) e),
      )
    ]

-- The keys Secret of an older operator has an encoded password and no raw one.
unfoldable pub older_config : Call → Store → Data → Store × Result Failure Data
unfolding entry_of
older_config c s k =
    if c.sharing_enabled
    then (if not c.deletes
        then (s, err client_error)
        else (record { keys = missing; plain = s.plain; keyed = s.keyed; xml = s.xml }, ok []))
    else elim (entry_of password_entry k) [
      | none ↦ (s, ok [])
      | some password ↦ elim (entry_of last_rotation_key k) [
        | none ↦ (s, ok [])
        | some rotation ↦
            let d : Data = (password_entry, password) ∷ (last_rotation_key, rotation) ∷ [] in
            if not c.writes
            then (s, err client_error)
            else (with_password c.using_sharing (present d) s, ok d)
      ]
    ]

-- The data of the password Secret, which is created if it is missing.
unfoldable pub created_config : Call → Store → Data → Store × Result Failure Data
unfolding encoded_config older_config
created_config c s k = elim (password_of c.using_sharing s) [
  | unreadable ↦ (s, err client_error)
  | present d ↦ (s, ok d)
  | missing ↦ elim c.again_leader [
    | election_fails ↦ (s, err client_error)
    | follows ↦ (s, err waits_for_config)
    | leads ↦ elim (entry_of raw_password_key k) [
      | none ↦ older_config c s k
      | some raw ↦ encoded_config c s k raw
    ]
  ]
]

-- A password Secret that is out of date is deleted, so that a later call creates it.
abbrev pub discards : Call → Store → Failure → Store × Option Failure
discards c s f =
    if not c.deletes
    then (s, some client_error)
    else (with_password c.using_sharing missing s, some f)

-- The later of the rotations, for the label of the XML Secret.
unfoldable pub rotation_label : Str → Option Str → Option Str
rotation_label rotation encryption_rotation = elim (atoi rotation) [
  | none ↦ none
  | some t ↦ elim encryption_rotation [
    | none ↦ some (format_int t)
    | some text ↦ elim (atoi text) [
      | none ↦ none
      | some u ↦ some (format_int (if leb_ℤ t u then u else t))
    ]
  ]
]

-- The XML Secret gets the label.
unfoldable pub write_xml : Call → Store → Data → Str → Store × Option Failure
unfolding rotation_label entry_of
write_xml c s d rotation =
    if not c.reads_xml || not c.writes
    then (s, some client_error)
    else elim (rotation_label rotation (entry_of encryption_rotation_key d)) [
      | none ↦ (s, some not_a_time)
      | some label ↦ (
        record { keys = s.keys; plain = s.plain; keyed = s.keyed; xml = some (some label) },
        none,
      )
    ]

-- Whether the password was encoded with the key as it is now.
unfoldable pub check_key : Call → Store → Data → Str → Store × Option Failure
unfolding write_xml entry_of
check_key c s d rotation =
    let valid = get_valid_internal_encryption_key c.sharing_enabled c.aes c.password_key in
    if not c.using_sharing
    then write_xml c s d rotation
    else if valid.failing
    then (s, some key_invalid)
    else elim valid.secret [
      | none ↦ (s, some Failure.panics)
      | some internal ↦ elim (entry_of last_rotation_key internal) [
        | none ↦ (s, some (if not c.deletes then client_error else key_without_rotation))
        | some key_rotation ↦ elim (entry_of encryption_rotation_key d) [
          | none ↦ write_xml c s d rotation
          | some used ↦
              if not (used == key_rotation)
              then discards c s key_modified
              else write_xml c s d rotation
        ]
      ]
    ]

-- Whether the password was encoded for the keys as they are now.
unfoldable pub check_config : Call → Store → Data → Store × Option Failure
unfolding check_key entry_of
check_config c s d = elim (entry_of last_rotation_key d) [
  | none ↦ discards c s no_last_rotation
  | some rotation ↦
      if not (rotation == c.keys_last_rotation)
      then discards c s out_of_sync
      else check_key c s d rotation
]

-- `generateLTPAConfig`: the Secrets after it, and its error.
unfoldable pub generate_ltpa_config : Call → Store → Store × Option Failure
unfolding follow_config created_config check_config
generate_ltpa_config c s = elim s.keys [
  | unreadable ↦ fails s client_error
  | missing ↦ elim c.keys_leader [
    | election_fails ↦ fails s client_error
    | follows ↦ fails s waits_for_keys
    | leads ↦ fails s unknown_error
  ]
  | present k ↦ elim c.config_leader [
    | election_fails ↦ fails s client_error
    | follows ↦ (s, follow_config c s)
    | leads ↦
        let (s', d) = created_config c s k in
        elim d [ err f ↦ (s', some f) | ok data' ↦ check_config c s' data' ]
  ]
]
