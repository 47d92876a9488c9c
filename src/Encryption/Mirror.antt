-- ===== src/Encryption/Mirror.antt =====
-- The leader's mirroring, and the key that leader and followers then use.
use open_liberty_operator.Common.{
  Str, ◌==◌, str_eq, str_beq, str_beq_iff, Bool, true, false, [], ◌∷◌, some, is_some, ◌≡◌, refl, ap,
  ◌∙◌, arith, Bool-cases, inl, inr,
}
use open_liberty_operator.Encryption.{
  Data, entry_of, text_at, put, Lookup, missing, unreadable, present, data_in, aes_key,
  last_rotation_key, is_secret_mirrored, mirrored, mirror_encryption_key_secret_state, uses_key,
  reconcile_key, Secrets, reconcile_encryption_key,
}
use open_liberty_operator.Encryption.State.{readable}

entry_of-put : (k v : Str) (d : Data) → entry_of k (put k v d) ≡ some v
unfolding entry_of put
entry_of-put k v [] = ground (arith, str_beq_iff k k)
entry_of-put k v ((k', w) ∷ d) = ground (arith, str_beq_iff k k, entry_of-put k v d)

entry_of-put_other :
    (k k' v : Str) (d : Data) → (k' == k) ≡ false → entry_of k (put k' v d) ≡ entry_of k d
unfolding entry_of put
entry_of-put_other k k' v [] h = ground (arith, h)
entry_of-put_other k k' v ((l, w) ∷ d) h = elim (Bool-cases (l == k')) [
  | inr e ↦ ground (arith, e, entry_of-put_other k k' v d h)
  | inl e ↦
      let other : (l == k) ≡ false =
        ground (arith, e, h, str_beq_iff l k', str_beq_iff l k, str_beq_iff k' k) in
      ground (arith, e, other, h)
]

unchanged :
    (now k : Str) (user d : Data)
    → (text_at k d == text_at k user) ≡ true
    → mirrored now k user d ≡ d
unfolding mirrored
unchanged now k user d h = ground (arith, h)

module _ (now k : Str) (user : Data) (other : (last_rotation_key == k) ≡ false) where
  -- The internal data then holds the user's key.
  text_at-mirrored : (d : Data) → (text_at k (mirrored now k user d) == text_at k user) ≡ true
  unfolding mirrored
  text_at-mirrored d = elim (Bool-cases (text_at k d == text_at k user)) [
    | inl e ↦ ground (arith, e)
    | inr e ↦
        let kept = entry_of-put_other k last_rotation_key now (put k (text_at k user) d) other in
        ground (
          arith,
          e,
          kept,
          entry_of-put k (text_at k user) d,
          str_beq_iff (text_at k user) (text_at k user),
        )
  ]

-- Mirroring again, at any time, changes nothing: a key is rotated once. The key is not the entry of the
-- last rotation.
pub mirrored-mirrored :
    (now now' k : Str) (user d : Data)
    → (last_rotation_key == k) ≡ false
    → mirrored now' k user (mirrored now k user d) ≡ mirrored now k user d
mirrored-mirrored now now' k user d other =
    unchanged now' k user (mirrored now k user d) (text_at-mirrored now k user other d)

text_at-is_some : (k : Str) (d : Data) → (text_at k d == []) ≡ false → is_some (entry_of k d) ≡ true
unfolding str_beq
text_at-is_some k d h = ground (arith, h)

-- A Secret whose key is the user's, which is not empty, is used by the leader and by the others.
used :
    (k : Str) (user d : Data) (is_leader : Bool)
    → (text_at k user == []) ≡ false
    → (text_at k d == text_at k user) ≡ true
    → reconcile_key k is_leader true (present user) (present d)
      ≡ uses_key k (text_at last_rotation_key d)
unfolding reconcile_key is_secret_mirrored
used k user d is_leader some_key same =
    let equal : text_at k d ≡ text_at k user =
      ground (arith, same, str_beq_iff (text_at k d) (text_at k user)) in
    let some_text : (text_at k d == []) ≡ false = ap (λ t. t == []) equal ∙ some_key in
    let there = text_at-is_some k d some_text in either is_leader some_text there
  where
    either :
        (b : Bool)
        → (text_at k d == []) ≡ false
        → is_some (entry_of k d) ≡ true
        → reconcile_key k b true (present user) (present d)
          ≡ uses_key k (text_at last_rotation_key d)
    either true t there = rw (reconcile_key, there, t) refl
    either false t there = rw (reconcile_key, there, t) (rw (some_key, same) refl)

-- The internal AES Secret that the leader's mirroring leaves.
abbrev pub with_internal_aes : Lookup → Secrets → Secrets
with_internal_aes l s = record {
  user_password = s.user_password;
  internal_password = s.internal_password;
  user_aes = s.user_aes;
  internal_aes = l;
}

mirror-readable :
    (now k : Str) (user : Data) (internal : Lookup)
    → readable internal ≡ true
    → mirror_encryption_key_secret_state true now k (present user) internal
      ≡ (present (mirrored now k user (data_in internal)), true)
unfolding mirror_encryption_key_secret_state
mirror-readable now k user missing h = refl
mirror-readable now k user (present d) h = refl
mirror-readable now k user unreadable h = absurd (ground (arith, h))

rotation_is_other : (last_rotation_key == aes_key) ≡ false
unfolding str_beq
rotation_is_other = refl

module _ (now now' : Str) (s : Secrets) (user : Data) (given : s.user_aes ≡ present user)
    (some_key : (text_at aes_key user == []) ≡ false)
    (can_read : readable s.internal_aes ≡ true) where
  -- When the user gives an AES key, the leader's `reconcileEncryptionKey` uses the AES Secret, whatever
  -- the password Secrets are, and then so does every other instance, with the same last rotation. The
  -- client can read the internal AES Secret, and its writes succeed.
  pub aes_key_shared :
      let internal = mirrored now aes_key user (data_in s.internal_aes) in
      (reconcile_encryption_key true true true now s
        ≡ uses_key aes_key (text_at last_rotation_key internal))
      × (reconcile_encryption_key false true true now' (with_internal_aes (present internal) s)
          ≡ uses_key aes_key (text_at last_rotation_key internal))
  unfolding reconcile_encryption_key
  aes_key_shared =
      let internal = mirrored now aes_key user (data_in s.internal_aes) in
      let same = text_at-mirrored now aes_key user rotation_is_other (data_in s.internal_aes) in
      let mirror = mirror-readable now aes_key user s.internal_aes can_read in
      (
        rw (given, mirror) (used aes_key user internal true some_key same),
        rw (given, used aes_key user internal false some_key same) refl,
      )
