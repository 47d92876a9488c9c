-- ===== src/Encryption.antt =====
-- Sharing the password encryption key of a namespace
-- (internal/controller/password_encryption_key_sharing.go). The user's Secrets are mirrored to internal
-- ones by the leader, and an AES key has precedence over a password key. The reads of the client and
-- whether its writes succeed are inputs.
mod State
mod Mirror
mod Tests
use open_liberty_operator.Common.{
  Str, codes, ◌==◌, str_eq, Bool, true, false, not, ◌&&◌, ◌||◌, List, [], ◌∷◌, Option, none, some,
  if◌then◌else◌, is_some,
}

-- The data of a Secret.
abbrev pub Data : Type 0
Data = List (Str × Str)

unfoldable pub entry_of : Str → Data → Option Str
entry_of k [] = none
entry_of k ((k', v) ∷ d) = if k' == k then some v else entry_of k d

-- `string(secret.Data[k])`: empty for a missing key.
abbrev pub text_at : Str → Data → Str
text_at k d = elim (entry_of k d) [ none ↦ [] | some v ↦ v ]

unfoldable pub put : Str → Str → Data → Data
put k v [] = (k, v) ∷ []
put k v ((k', w) ∷ d) = let rest = put k v d in if k' == k then (k', v) ∷ d else (k', w) ∷ rest

-- What `getSecret` returns: that there is none, another error, or the Secret.
pub data Lookup : Type 0 where
  missing unreadable : Lookup
  present : Data → Lookup

abbrev pub data_in : Lookup → Data
data_in missing = []
data_in unreadable = []
data_in (present d) = d

abbrev pub aes_key : Str
aes_key = codes "aesEncryptionKey"

abbrev pub password_key : Str
password_key = codes "passwordEncryptionKey"

abbrev pub last_rotation_key : Str
last_rotation_key = codes "lastRotation"

-- `getEncryptionKeyData` of a Secret that is not nil: the key and its last rotation, if both are there.
unfoldable pub get_encryption_key_data : Data → Str → Option (Str × Str)
unfolding entry_of
get_encryption_key_data d matched_key =
    if text_at matched_key d == [] || text_at last_rotation_key d == []
    then none
    else some (text_at matched_key d, text_at last_rotation_key d)

pub record ValidKey : Type 0 where
  pub secret : Option Data
  pub sharing_enabled : Bool
  pub aes_found : Bool
  pub failing : Bool

-- `getValidInternalEncryptionKey`, from the internal AES and password Secrets.
unfoldable pub get_valid_internal_encryption_key : Bool → Lookup → Lookup → ValidKey
unfolding get_encryption_key_data
get_valid_internal_encryption_key false aes password = record {
  secret = none;
  sharing_enabled = false;
  aes_found = false;
  failing = false;
}
get_valid_internal_encryption_key true unreadable password = record {
  secret = none;
  sharing_enabled = true;
  aes_found = true;
  failing = true;
}
get_valid_internal_encryption_key true missing unreadable = record {
  secret = none;
  sharing_enabled = true;
  aes_found = false;
  failing = true;
}
get_valid_internal_encryption_key true missing missing = record {
  secret = none;
  sharing_enabled = true;
  aes_found = false;
  failing = false;
}
get_valid_internal_encryption_key true missing (present p) =
    if is_some (get_encryption_key_data p password_key)
    then record { secret = some p; sharing_enabled = true; aes_found = false; failing = false }
    else record { secret = none; sharing_enabled = true; aes_found = false; failing = true }
get_valid_internal_encryption_key true (present a) unreadable = record {
  secret = none;
  sharing_enabled = true;
  aes_found = true;
  failing = true;
}
get_valid_internal_encryption_key true (present a) missing =
    if is_some (get_encryption_key_data a aes_key)
    then record { secret = some a; sharing_enabled = true; aes_found = true; failing = false }
    else record { secret = none; sharing_enabled = true; aes_found = true; failing = true }
get_valid_internal_encryption_key true (present a) (present p) =
    if is_some (get_encryption_key_data a aes_key)
    then record { secret = some a; sharing_enabled = true; aes_found = true; failing = false }
    else if is_some (get_encryption_key_data p password_key)
    then record { secret = some p; sharing_enabled = true; aes_found = true; failing = false }
    else record { secret = none; sharing_enabled = true; aes_found = true; failing = true }

-- The key that `getInternalEncryptionKeyState` returns, or that it finds none, or its panic at a nil
-- Secret.
pub data KeyState : Type 0 where
  not_shared misconfigured panics : KeyState
  shared : Str → Str → Bool → KeyState

-- `getInternalEncryptionKeyState`.
unfoldable pub get_internal_encryption_key_state : Bool → Lookup → Lookup → KeyState
unfolding get_valid_internal_encryption_key
get_internal_encryption_key_state sharing aes password =
    let valid = get_valid_internal_encryption_key sharing aes password in
    let matched_key = if valid.aes_found then aes_key else password_key in
    if not valid.sharing_enabled then not_shared else elim (valid.secret) [
      | none ↦ panics
      | some d ↦ elim (get_encryption_key_data d matched_key) [
        | none ↦ misconfigured
        | some (key, last_rotation) ↦ shared key last_rotation valid.aes_found
      ]
    ]

-- `isSecretMirrored`, from the user's and the internal Secret.
unfoldable pub is_secret_mirrored : Str → Lookup → Lookup → Bool
unfolding entry_of
is_secret_mirrored k (present user) (present internal) =
    not (text_at k user == []) && text_at k internal == text_at k user
is_secret_mirrored k _ _ = false

-- What `mirrorEncryptionKeySecretState` writes to the internal Secret at the time `now`.
unfoldable pub mirrored : Str → Str → Data → Data → Data
unfolding entry_of put
mirrored now k user internal =
    if not (text_at k internal == text_at k user)
    then put last_rotation_key now (put k (text_at k user) internal)
    else internal

-- `mirrorEncryptionKeySecretState`: the internal Secret after it, and whether it returned no error.
unfoldable pub mirror_encryption_key_secret_state :
    Bool → Str → Str → Lookup → Lookup → Lookup × Bool
unfolding mirrored
mirror_encryption_key_secret_state writes now k unreadable internal = (internal, false)
mirror_encryption_key_secret_state writes now k missing missing = (missing, false)
mirror_encryption_key_secret_state writes now k missing unreadable = (unreadable, false)
mirror_encryption_key_secret_state writes now k missing (present d) =
    (if writes then missing else present d, false)
mirror_encryption_key_secret_state writes now k (present user) unreadable = (unreadable, false)
mirror_encryption_key_secret_state writes now k (present user) missing =
    if writes then (present (mirrored now k user []), true) else (missing, false)
mirror_encryption_key_secret_state writes now k (present user) (present d) =
    if writes then (present (mirrored now k user d), true) else (present d, false)

-- The result of reconciling a key: the key's last rotation, or a message with whether an error is
-- returned beside it.
pub data KeyResult : Type 0 where
  uses_key : Str → Str → KeyResult
  message_of : Bool → KeyResult
  waits_for_leader no_sharing : KeyResult

-- `reconcileAESEncryptionKey` and `reconcilePasswordEncryptionKey`, which differ in the key `k`.
unfoldable pub reconcile_key : Str → Bool → Bool → Lookup → Lookup → KeyResult
unfolding is_secret_mirrored entry_of
reconcile_key k is_leader creates_config user missing = message_of true
reconcile_key k is_leader creates_config user unreadable = message_of true
reconcile_key k is_leader creates_config user (present d) =
    if not (is_some (entry_of k d)) || text_at k d == []
    then message_of false
    else if is_leader
    then (if creates_config then uses_key k (text_at last_rotation_key d) else message_of true)
    else if is_secret_mirrored k user (present d)
    then uses_key k (text_at last_rotation_key d)
    else waits_for_leader

-- The four Secrets.
pub record Secrets : Type 0 where
  pub user_password : Lookup
  pub internal_password : Lookup
  pub user_aes : Lookup
  pub internal_aes : Lookup

abbrev pub returns_error : KeyResult → Bool
returns_error (uses_key k r) = false
returns_error (message_of b) = b
returns_error waits_for_leader = true
returns_error no_sharing = false

-- `reconcileEncryptionKey` of an instance that shares the key, once its leader is known; the writes of
-- the client succeed or fail alike.
unfoldable pub reconcile_encryption_key : Bool → Bool → Bool → Str → Secrets → KeyResult
unfolding mirror_encryption_key_secret_state reconcile_key
reconcile_encryption_key true writes creates_config now s =
    let (password, password_mirrored) =
      mirror_encryption_key_secret_state writes now password_key s.user_password
        s.internal_password in
    let (aes, aes_mirrored) =
      mirror_encryption_key_secret_state writes now aes_key s.user_aes s.internal_aes in
    if aes_mirrored
    then reconcile_key aes_key true creates_config s.user_aes aes
    else if password_mirrored
    then reconcile_key password_key true creates_config s.user_password password
    else message_of true
reconcile_encryption_key false writes creates_config now s =
    let aes = reconcile_key aes_key false creates_config s.user_aes s.internal_aes in
    if not (returns_error aes)
    then aes
    else reconcile_key password_key false creates_config s.user_password s.internal_password
