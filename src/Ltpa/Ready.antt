-- ===== src/Ltpa/Ready.antt =====
-- A call of the leader that nothing stands in the way of, and what it does with a password Secret that is
-- missing or up to date.
use open_liberty_operator.Common.{
  ℕ, ◌<◌, ◌^◌, Str, str_eq, str_beq, Bool, true, false, [], ◌∷◌, Option, none, some, leb,
  format_int, format_nat, if◌then◌else◌, ok, ◌≡◌, ◌≢◌, refl, arith, parse_int-format_nat,
  format_nat-ne-nil,
}
use open_liberty_operator.Encryption.{
  Data, entry_of, text_at, missing, present, last_rotation_key, not_shared, shared,
  get_valid_internal_encryption_key, get_internal_encryption_key_state,
}
use open_liberty_operator.Ltpa.{
  Store, leads, raw_password_key, encryption_rotation_key, Call, password_of, with_password,
  used_key, password_data,
}
use open_liberty_operator.Ltpa.Config.{
  key_state, encoded_config, created_config, rotation_label, write_xml, check_key, check_config,
  generate_ltpa_config,
}

-- A call of the leader with nothing refused, for keys with a raw password that can be encoded.
pub record Ready (c : Call) (k : Data) (t : ℕ) : Type 0 where
  pub raw : Str
  pub encoded : Str
  pub leads_config : c.config_leader ≡ leads
  pub leads_again : c.again_leader ≡ leads
  pub deletes : c.deletes ≡ true
  pub writes : c.writes ≡ true
  pub reads_xml : c.reads_xml ≡ true
  pub has_raw : entry_of raw_password_key k ≡ some raw
  pub encodes : c.encode raw (used_key (key_state c)) ≡ some encoded
  pub rotation : c.keys_last_rotation ≡ format_nat t
  pub rotated : text_at last_rotation_key k ≡ format_nat t
  pub small : t < 2 ^ 63

-- The password key of the call: none is shared, or a valid one is, with the time of its rotation.
pub data KeyOf (c : Call) : Option ℕ → Type 0 where
  no_key : c.sharing_enabled ≡ false → c.using_sharing ≡ false → KeyOf c none
  valid_key :
      {u : ℕ} (key : Str) (aes : Bool) (d : Data)
      → c.using_sharing ≡ true
      → key_state c ≡ shared key (format_nat u) aes
      → key ≢ []
      → u < 2 ^ 63
      → (get_valid_internal_encryption_key c.sharing_enabled c.aes c.password_key).failing ≡ false
      → (get_valid_internal_encryption_key c.sharing_enabled c.aes c.password_key).secret ≡ some d
      → entry_of last_rotation_key d ≡ some (format_nat u)
      → KeyOf c (some u)

abbrev pub rotation_text : Option ℕ → Option Str
rotation_text none = none
rotation_text (some u) = some (format_nat u)

-- The later of the rotations.
abbrev pub latest_rotation : ℕ → Option ℕ → ℕ
latest_rotation t none = t
latest_rotation t (some u) = if leb t u then u else t

rotation_label-format_nat :
    (c : Call) (t : ℕ) (u : Option ℕ)
    → t < 2 ^ 63
    → KeyOf c u
    → rotation_label (format_nat t) (rotation_text u) ≡ some (format_nat (latest_rotation t u))
unfolding rotation_label format_int
rotation_label-format_nat c t none h (no_key p q) = ground (arith, parse_int-format_nat t h)
rotation_label-format_nat c t (some u) h (valid_key key aes d p q n b v w x) =
    ground (arith, parse_int-format_nat t h, parse_int-format_nat u b)

unshared : (c : Call) → c.sharing_enabled ≡ false → key_state c ≡ not_shared
unfolding get_internal_encryption_key_state
unshared c p = ground (arith, p)

plain_rotation :
    (t e : Str)
    → (entry_of last_rotation_key (password_data t not_shared e) ≡ some t)
      × (entry_of encryption_rotation_key (password_data t not_shared e) ≡ none)
unfolding password_data entry_of str_beq
plain_rotation t e = (refl, refl)

keyed_rotation :
    (t e key r : Str) (aes : Bool)
    → key ≢ []
    → r ≢ []
    → (entry_of last_rotation_key (password_data t (shared key r aes) e) ≡ some t)
      × (entry_of encryption_rotation_key (password_data t (shared key r aes) e) ≡ some r)
unfolding password_data entry_of str_beq
keyed_rotation t e [] r aes h k = absurd (h refl)
keyed_rotation t e (x ∷ key) [] aes h k = absurd (k refl)
keyed_rotation t e (x ∷ key) (y ∷ r) aes h k = (refl, refl)

-- What the fresh password Secret holds.
fresh_rotation :
    (c : Call) (t : ℕ) (u : Option ℕ) (e : Str)
    → KeyOf c u
    → (entry_of last_rotation_key (password_data (format_nat t) (key_state c) e)
        ≡ some (format_nat t))
      × (entry_of encryption_rotation_key (password_data (format_nat t) (key_state c) e)
          ≡ rotation_text u)
fresh_rotation c t none e (no_key p q) = rw (unshared c p) (plain_rotation (format_nat t) e)
fresh_rotation c t (some u) e (valid_key key aes d p q n b v w x) =
    rw q (keyed_rotation (format_nat t) e key (format_nat u) aes n (format_nat-ne-nil u))

unfoldable pub with_xml : Store → Str → Store
with_xml s label = record {
  keys = s.keys;
  plain = s.plain;
  keyed = s.keyed;
  xml = some (some label);
}

module _ (c : Call) (k : Data) (t : ℕ) (u : Option ℕ) (r : Ready c k t) (o : KeyOf c u) where
  abbrev pub label : Str
  label = format_nat (latest_rotation t u)

  write_xml-label :
      (s : Store) (d : Data)
      → entry_of encryption_rotation_key d ≡ rotation_text u
      → write_xml c s d (format_nat t) ≡ (with_xml s label, none)
  unfolding write_xml with_xml
  write_xml-label s d e =
      ground (arith, r.reads_xml, r.writes, e, rotation_label-format_nat c t u r.small o)

  -- A password Secret for the key as it is now goes on to the XML Secret.
  pub check_key-current :
      (s : Store) (d : Data)
      → entry_of encryption_rotation_key d ≡ rotation_text u
      → check_key c s d (format_nat t) ≡ (with_xml s label, none)
  unfolding check_key
  check_key-current s d e = check_cases u o e (write_xml-label s d e)
    where
      check_cases :
          (v : Option ℕ)
          → KeyOf c v
          → entry_of encryption_rotation_key d ≡ rotation_text v
          → write_xml c s d (format_nat t) ≡ (with_xml s label, none)
          → check_key c s d (format_nat t) ≡ (with_xml s label, none)
      check_cases none (no_key p q) e w = ground (arith, q, w)
      check_cases (some v) (valid_key key aes x p q n b fine is at) e w =
          ground (arith, p, fine, is, at, e, w, str_eq.same_iff (format_nat v) (format_nat v))

  check_config-current :
      (s : Store) (d : Data)
      → entry_of last_rotation_key d ≡ some (format_nat t)
      → entry_of encryption_rotation_key d ≡ rotation_text u
      → check_config c s d ≡ (with_xml s label, none)
  unfolding check_config
  check_config-current s d f e =
      ground (
        arith,
        f,
        r.rotation,
        check_key-current s d e,
        str_eq.same_iff (format_nat t) (format_nat t),
      )

  abbrev pub fresh : Data
  fresh = password_data (format_nat t) (key_state c) r.encoded

  encoded_config-fresh :
      (s : Store)
      → encoded_config c s k r.raw ≡ (with_password c.using_sharing (present fresh) s, ok fresh)
  unfolding encoded_config
  encoded_config-fresh s = encode_cases u o
    where
      encode_cases :
          (v : Option ℕ)
          → KeyOf c v
          → encoded_config c s k r.raw ≡ (with_password c.using_sharing (present fresh) s, ok fresh)
      encode_cases none (no_key p q) = ground (arith, unshared c p, r.encodes, r.writes, r.rotated)
      encode_cases (some v) (valid_key key aes x p q n b fine is at) =
          ground (arith, q, r.encodes, r.writes, r.rotated)

  -- Without a password Secret the call creates it and writes the label.
  pub generate-missing :
      (s : Store)
      → s.keys ≡ present k
      → password_of c.using_sharing s ≡ missing
      → generate_ltpa_config c s
        ≡ (with_xml (with_password c.using_sharing (present fresh) s) label, none)
  unfolding generate_ltpa_config created_config
  generate-missing s e m =
      let (f, g) = fresh_rotation c t u r.encoded o in
      ground (
        arith,
        e,
        m,
        r.leads_config,
        r.leads_again,
        r.has_raw,
        encoded_config-fresh s,
        check_config-current (with_password c.using_sharing (present fresh) s) fresh f g,
      )
