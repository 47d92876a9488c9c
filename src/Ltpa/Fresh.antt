-- ===== src/Ltpa/Fresh.antt =====
-- New LTPA keys, and the configuration that is made for them.
use open_liberty_operator.Common.{
  ℕ, ◌<◌, ◌^◌, Str, str_beq, Bool, true, false, [], ◌∷◌, Option, some, format_nat, is_some, ok, ◌≡◌,
  ◌≢◌, refl, arith, ◌⊎◌,
}
use open_liberty_operator.Utils.{get_max_time}
use open_liberty_operator.Encryption.{
  Data, entry_of, text_at, missing, unreadable, present, last_rotation_key, KeyState, not_shared,
  misconfigured, shared,
}
use open_liberty_operator.Ltpa.{
  Store, leads, follows, raw_password_key, encryption_rotation_key, Call, password_of, used_key,
}
use open_liberty_operator.Ltpa.Config.{key_state, generate_ltpa_config}
use open_liberty_operator.Ltpa.Keys.{
  KeysCall, keys_state, keys_data, created_keys, generate_ltpa_keys,
}
use open_liberty_operator.Ltpa.Ready.{Ready, KeyOf}
use open_liberty_operator.Ltpa.Agree.{Serves, rotation_or_empty, generate_ltpa_config-Serves}

-- The password key is not shared, or it is found.
abbrev pub is_known : KeyState → Bool
is_known not_shared = true
is_known misconfigured = false
is_known KeyState.panics = false
is_known (shared key rotation aes) = true

-- A call of the leader that can make the keys.
pub record Makes (k : KeysCall) : Type 0 where
  pub file : Str
  pub leads_keys : k.leader ≡ leads
  pub known : is_known (keys_state k) ≡ true
  pub created : k.create_keys k.password (used_key (keys_state k)) ≡ some file
  pub writes : k.writes ≡ true

-- A call of the leader that can make the configuration for a password and a time of the keys.
pub record Leads (c : Call) (password : Str) (t : ℕ) : Type 0 where
  pub encoded : Str
  pub leads_config : c.config_leader ≡ leads
  pub leads_again : c.again_leader ≡ leads
  pub deletes : c.deletes ≡ true
  pub writes : c.writes ≡ true
  pub reads_xml : c.reads_xml ≡ true
  pub encodes : c.encode password (used_key (key_state c)) ≡ some encoded
  pub rotation : c.keys_last_rotation ≡ format_nat t
  pub small : t < 2 ^ 63

keys_entries :
    (password rotation keys : Str) (k : KeyState)
    → (entry_of raw_password_key (keys_data password k rotation keys) ≡ some password)
      × (text_at last_rotation_key (keys_data password k rotation keys) ≡ rotation)
unfolding entry_of keys_data str_beq
keys_entries password rotation keys k = (refl, refl)

abbrev with_keys : Data → Store → Store
with_keys d s = record { keys = present d; plain = s.plain; keyed = s.keyed; xml = s.xml }

module _ (k : KeysCall) (m : Makes k) (s : Store) where
  abbrev new_keys : Data
  new_keys = keys_data k.password (keys_state k) (format_nat k.now) m.file

  created_keys-with_keys : created_keys k s ≡ (with_keys new_keys s, ok (format_nat k.now))
  unfolding created_keys
  created_keys-with_keys = ground (arith, m.known, m.created, m.writes)

  generate_ltpa_keys-with_keys :
      s.keys ≡ missing → generate_ltpa_keys k s ≡ (with_keys new_keys s, ok (format_nat k.now))
  unfolding generate_ltpa_keys
  generate_ltpa_keys-with_keys e = ground (arith, e, m.leads_keys, created_keys-with_keys)

-- In a namespace without LTPA keys, the leader's call of `generateLTPAKeys` returns its time, and after it the
-- leader's call of `generateLTPAConfig`, or else the next one, succeeds, and then the call of every
-- instance that does not lead succeeds and changes nothing, whatever XML Secret is left there. No
-- password Secret is left, or it is read, and then it holds the rotation of a key if and only if a key is
-- shared; nothing is said of a left-over password Secret of another kind. The key tools answer, the
-- client refuses nothing, and the instance that does not lead waits for the greatest of the rotations.
pub generate_ltpa_keys-Serves :
    (k : KeysCall) (c : Call) (u : Option ℕ) (f : Call) (s : Store)
    → Makes k
    → Leads c k.password k.now
    → KeyOf c u
    → f.config_leader ≡ follows
    → f.reads_xml ≡ true
    → get_max_time (rotation_or_empty u ∷ c.keys_last_rotation ∷ [])
      ≡ ok f.last_key_related_rotation
    → s.keys ≡ missing
    → password_of c.using_sharing s ≢ unreadable
    → ((d : Data)
        → password_of c.using_sharing s ≡ present d
        → is_some (entry_of encryption_rotation_key d) ≡ is_some u)
    → ((generate_ltpa_keys k s).1 ≡ ok (format_nat k.now))
      × (Serves f (generate_ltpa_config c (generate_ltpa_keys k s).0)
          ⊎ Serves f (generate_ltpa_config c (generate_ltpa_config c (generate_ltpa_keys k s).0).0))
generate_ltpa_keys-Serves k c u f s m l o follow reads latest e readable kept =
    let (raw, rotated) = keys_entries k.password (format_nat k.now) m.file (keys_state k) in
    let r : Ready c (new_keys k m s) k.now = record {
      raw = k.password;
      encoded = l.encoded;
      leads_config = l.leads_config;
      leads_again = l.leads_again;
      deletes = l.deletes;
      writes = l.writes;
      reads_xml = l.reads_xml;
      has_raw = raw;
      encodes = l.encodes;
      rotation = l.rotation;
      rotated = rotated;
      small = l.small;
    } in
    rw (generate_ltpa_keys-with_keys k m s e) (
      refl,
      generate_ltpa_config-Serves c (new_keys k m s) k.now u r o f follow reads latest
          (with_keys (new_keys k m s) s) refl readable kept,
    )
