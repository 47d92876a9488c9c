-- ===== src/Ltpa/Converge.antt =====
-- The leader brings the shared configuration up to date in two calls, and the others then go on.
use open_liberty_operator.Common.{
  ℕ, Str, ◌==◌, str_eq, Option, none, some, format_nat, is_some, ◌≡◌, ◌≢◌, refl, ap, ◌∙◌, arith,
  Bool-cases, Option-cases, inl, inr, ◌⊎◌,
}
use open_liberty_operator.Encryption.{
  Data, entry_of, Lookup, missing, unreadable, present, last_rotation_key,
}
use open_liberty_operator.Ltpa.{
  Store, Failure, encryption_rotation_key, key_modified, out_of_sync, no_last_rotation, Call,
  password_of, with_password,
}
use open_liberty_operator.Ltpa.Config.{
  created_config, check_key, check_config, generate_ltpa_config,
}
use open_liberty_operator.Ltpa.Ready.{
  Ready, KeyOf, no_key, valid_key, rotation_text, latest_rotation, with_xml, check_key-current,
  generate-missing,
}

module _ (c : Call) (k : Data) (t : ℕ) (u : Option ℕ) (r : Ready c k t) (o : KeyOf c u) where
  abbrev pub label : Str
  label = format_nat (latest_rotation t u)

  -- A password Secret is up to date, or it is deleted.
  abbrev Checked : Store → Store × Option Failure → Type 0
  Checked s x =
      (x ≡ (with_xml s label, none))
      ⊎ ((f : Failure) × (x ≡ (with_password c.using_sharing missing s, some f)))

  check_key-Checked :
      (s : Store) (d : Data)
      → is_some (entry_of encryption_rotation_key d) ≡ is_some u
      → Checked s (check_key c s d (format_nat t))
  unfolding check_key
  check_key-Checked s d h = check_cases u o h (check_key-current c k t u r o s d)
    where
      check_cases :
          (v : Option ℕ)
          → KeyOf c v
          → is_some (entry_of encryption_rotation_key d) ≡ is_some v
          → (entry_of encryption_rotation_key d ≡ rotation_text v
              → check_key c s d (format_nat t) ≡ (with_xml s label, none))
          → Checked s (check_key c s d (format_nat t))
      check_cases none (no_key p q) h w = elim (Option-cases (entry_of encryption_rotation_key d)) [
        | inl e ↦ inl (w e)
        | inr (x, e) ↦ absurd (ground (arith, e, h))
      ]
      check_cases (some v) (valid_key key aes x p q n b fine is at) h w =
          elim (Option-cases (entry_of encryption_rotation_key d)) [
            | inl e ↦ absurd (ground (arith, e, h))
            | inr (used, e) ↦ elim (Bool-cases (used == format_nat v)) [
              | inl same ↦ inl (w (ground (arith, e, same, str_eq.same_iff used (format_nat v))))
              | inr other ↦ inr (key_modified, ground (arith, p, fine, is, at, e, other, r.deletes))
            ]
          ]

  check_config-Checked :
      (s : Store) (d : Data)
      → is_some (entry_of encryption_rotation_key d) ≡ is_some u
      → Checked s (check_config c s d)
  unfolding check_config
  check_config-Checked s d h = elim (Option-cases (entry_of last_rotation_key d)) [
    | inl e ↦ inr (no_last_rotation, ground (arith, e, r.deletes))
    | inr (rotation, e) ↦ elim (Bool-cases (rotation == c.keys_last_rotation)) [
      | inr other ↦ inr (out_of_sync, ground (arith, e, other, r.deletes))
      | inl same ↦
          let is : rotation ≡ format_nat t =
            ground (arith, same, r.rotation, str_eq.same_iff rotation c.keys_last_rotation) in
          let step : check_config c s d ≡ check_key c s d (format_nat t) =
            ground (arith, e, same, is) in
          rw step (check_key-Checked s d h)
    ]
  ]

  generate-present :
      (s : Store) (d : Data)
      → s.keys ≡ present k
      → password_of c.using_sharing s ≡ present d
      → generate_ltpa_config c s ≡ check_config c s d
  unfolding generate_ltpa_config created_config
  generate-present s d e m = ground (arith, e, m, r.leads_config)

  abbrev pub Updated : Store × Option Failure → Type 0
  Updated x = (x.1 ≡ none) × (x.0.xml ≡ some (some label)) × (x.0.keys ≡ present k)

  missing-Updated :
      (s : Store)
      → s.keys ≡ present k
      → password_of c.using_sharing s ≡ missing
      → Updated (generate_ltpa_config c s)
  unfolding with_xml
  missing-Updated s e m = rw (generate-missing c k t u r o s e m) (refl, refl, e)

  discarded :
      (s : Store) → password_of c.using_sharing (with_password c.using_sharing missing s) ≡ missing
  discarded s = ground arith

  pub Updated-in_two :
      (s : Store)
      → s.keys ≡ present k
      → password_of c.using_sharing s ≢ unreadable
      → ((d : Data)
          → password_of c.using_sharing s ≡ present d
          → is_some (entry_of encryption_rotation_key d) ≡ is_some u)
      → Updated (generate_ltpa_config c s)
        ⊎ Updated (generate_ltpa_config c (generate_ltpa_config c s).0)
  unfolding with_xml
  Updated-in_two s e readable kept = from (password_of c.using_sharing s) refl
    where
      from :
          (l : Lookup)
          → password_of c.using_sharing s ≡ l
          → Updated (generate_ltpa_config c s)
            ⊎ Updated (generate_ltpa_config c (generate_ltpa_config c s).0)
      from unreadable m = absurd (readable m)
      from missing m = inl (missing-Updated s e m)
      from (present d) m =
          let g = generate-present s d e m in
          elim (check_config-Checked s d (kept d m)) [
            | inl h ↦ inl (rw (g ∙ h) (refl, refl, e))
            | inr (f, h) ↦
                let after : (generate_ltpa_config c s).0 ≡ with_password c.using_sharing missing s =
                  ap (λ x. x.0) (g ∙ h) in
                inr (
                  rw after
                    (missing-Updated (with_password c.using_sharing missing s) e (discarded s)))
          ]
