-- ===== src/Encryption/Tests.antt =====
-- Concrete Secrets.
use open_liberty_operator.Common.{
  codes, str_eq, str_beq, true, false, not, ◌&&◌, ◌||◌, [], ◌∷◌, ◌≡◌, refl,
}
use open_liberty_operator.Encryption.{
  Data, missing, present, aes_key, password_key, last_rotation_key, text_at, mirrored, uses_key,
  Secrets, reconcile_encryption_key, get_internal_encryption_key_state, misconfigured, entry_of,
}
use open_liberty_operator.Encryption.State.{
  is_panic, readable, usable, is_panic-get_internal_encryption_key_state,
}
use open_liberty_operator.Encryption.Mirror.{mirrored-mirrored, with_internal_aes, aes_key_shared}

abbrev user_aes : Data
user_aes = (aes_key, codes "k") ∷ []

abbrev some_secrets : Secrets
some_secrets = record {
  user_password = missing;
  internal_password = missing;
  user_aes = present user_aes;
  internal_aes = missing;
}

is_panic-get_internal_encryption_key_state_example :
    is_panic (get_internal_encryption_key_state true missing missing)
    ≡ not (
        readable missing
        && readable missing
        && (usable aes_key missing || usable password_key missing))
is_panic-get_internal_encryption_key_state_example =
    is_panic-get_internal_encryption_key_state missing missing

-- A valid password key is not found beside an AES Secret without a key.
password_behind_invalid_aes :
    get_internal_encryption_key_state true
      (present [])
      (present ((password_key, codes "p") ∷ (last_rotation_key, codes "1") ∷ []))
    ≡ misconfigured
unfolding get_internal_encryption_key_state entry_of str_beq
password_behind_invalid_aes = refl

mirrored-mirrored_example :
    mirrored (codes "9") aes_key user_aes (mirrored (codes "5") aes_key user_aes [])
    ≡ mirrored (codes "5") aes_key user_aes []
unfolding str_beq
mirrored-mirrored_example = mirrored-mirrored (codes "5") (codes "9") aes_key user_aes [] refl

aes_key_shared_example :
    let internal = mirrored (codes "5") aes_key user_aes [] in
    (reconcile_encryption_key true true true (codes "5") some_secrets
      ≡ uses_key aes_key (text_at last_rotation_key internal))
    × (reconcile_encryption_key false true true
          (codes "9")
          (with_internal_aes (present internal) some_secrets)
        ≡ uses_key aes_key (text_at last_rotation_key internal))
unfolding entry_of str_beq
aes_key_shared_example = aes_key_shared (codes "5") (codes "9") some_secrets user_aes refl refl refl
