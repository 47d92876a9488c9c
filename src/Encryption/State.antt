-- ===== src/Encryption/State.antt =====
-- When an internal key is found.
use open_liberty_operator.Common.{
  Str, Bool, true, false, not, ◌&&◌, ◌||◌, is_some, ◌≡◌, refl, arith,
}
use open_liberty_operator.Encryption.{
  Lookup, missing, unreadable, present, aes_key, password_key, get_encryption_key_data, KeyState,
  panics, misconfigured, shared, not_shared, get_internal_encryption_key_state,
}

abbrev pub is_panic : KeyState → Bool
is_panic panics = true
is_panic not_shared = false
is_panic misconfigured = false
is_panic (shared k r b) = false

abbrev pub readable : Lookup → Bool
readable unreadable = false
readable missing = true
readable (present d) = true

abbrev pub usable : Str → Lookup → Bool
usable k missing = false
usable k unreadable = false
usable k (present d) = is_some (get_encryption_key_data d k)

-- With sharing enabled, `getInternalEncryptionKeyState` panics exactly when an internal Secret cannot be
-- read or neither holds a key with its last rotation.
pub is_panic-get_internal_encryption_key_state :
    (aes password : Lookup)
    → is_panic (get_internal_encryption_key_state true aes password)
      ≡ not (
          readable aes && readable password && (usable aes_key aes || usable password_key password))
unfolding get_internal_encryption_key_state
is_panic-get_internal_encryption_key_state unreadable password = refl
is_panic-get_internal_encryption_key_state missing unreadable = refl
is_panic-get_internal_encryption_key_state missing missing = refl
is_panic-get_internal_encryption_key_state missing (present p) = ground arith
is_panic-get_internal_encryption_key_state (present a) unreadable = refl
is_panic-get_internal_encryption_key_state (present a) missing = ground arith
is_panic-get_internal_encryption_key_state (present a) (present p) = ground arith
