-- ===== src/Ltpa/Agree.antt =====
-- Once the leader has brought the configuration up to date, the other instances go on.
use open_liberty_operator.Common.{
  ℕ, ◌<◌, ◌^◌, Str, true, [], ◌∷◌, Option, none, some, format_nat, is_some, ok, ◌≡◌, ◌≢◌, ◌∙◌,
  arith, inl, inr, ◌⊎◌,
}
use open_liberty_operator.Utils.{get_max_time}
use open_liberty_operator.Utils.Times.{
  compare_string_time_ge-format_nat, get_max_time-format_nat, get_max_time_empty,
}
use open_liberty_operator.Encryption.{Data, entry_of, unreadable, present}
use open_liberty_operator.Ltpa.{Store, Failure, follows, encryption_rotation_key, Call, password_of}
use open_liberty_operator.Ltpa.Config.{generate_ltpa_config, follow_config}
use open_liberty_operator.Ltpa.Ready.{Ready, KeyOf, no_key, valid_key, latest_rotation}
use open_liberty_operator.Ltpa.Converge.{Updated-in_two}

-- What the controller passes to `GetMaxTime` of the rotation of a key, if there is one.
abbrev pub rotation_or_empty : Option ℕ → Str
rotation_or_empty none = []
rotation_or_empty (some u) = format_nat u

max_of_rotations :
    (c : Call) (t : ℕ) (u : Option ℕ)
    → t < 2 ^ 63
    → KeyOf c u
    → get_max_time (rotation_or_empty u ∷ format_nat t ∷ []) ≡ ok (format_nat (latest_rotation t u))
max_of_rotations c t none h (no_key p q) = get_max_time_empty (t ∷ []) (h, tt) ∙ ground arith
max_of_rotations c t (some u) h (valid_key key aes x p q n b fine is at) =
    get_max_time-format_nat u (t ∷ []) b (h, tt) ∙ ground arith

follows-updated :
    (f : Call) (s : Store) (k : Data) (n : ℕ)
    → n < 2 ^ 63
    → f.config_leader ≡ follows
    → f.reads_xml ≡ true
    → f.last_key_related_rotation ≡ format_nat n
    → s.keys ≡ present k
    → s.xml ≡ some (some (format_nat n))
    → generate_ltpa_config f s ≡ (s, none)
unfolding generate_ltpa_config follow_config
follows-updated f s k n b l reads r e x =
    ground (arith, l, reads, r, e, x, compare_string_time_ge-format_nat n n b b)

latest-bound :
    (c : Call) (t : ℕ) (u : Option ℕ) → t < 2 ^ 63 → KeyOf c u → latest_rotation t u < 2 ^ 63
latest-bound c t none h (no_key p q) = h
latest-bound c t (some u) h (valid_key key aes x p q n b fine is at) = ground arith

-- A call leaves the configuration so that another instance's call goes on with it.
abbrev pub Serves : Call → Store × Option Failure → Type 0
Serves f x = (x.1 ≡ none) × (generate_ltpa_config f x.0 ≡ (x.0, none))

-- The leader's call of `generateLTPAConfig`, or else its next one, succeeds, and then the call of every
-- instance that does not lead succeeds and changes nothing, whatever XML Secret there is. There is no
-- password Secret, or it is read, and then it holds the rotation of a key if and only if a key is
-- shared; nothing is said of a password Secret that was written with a key and has lost its rotation, or
-- the other way round. The keys Secret has a raw password that can be encoded, and its last rotation is
-- that of both calls; the password key is not shared, or is valid; the other instance waits for the
-- greatest of the rotations, as `GetMaxTime` finds it, and the client refuses nothing.
pub generate_ltpa_config-Serves :
    (c : Call) (k : Data) (t : ℕ) (u : Option ℕ)
    → Ready c k t
    → KeyOf c u
    → (f : Call) → f.config_leader ≡ follows
    → f.reads_xml ≡ true
    → get_max_time (rotation_or_empty u ∷ c.keys_last_rotation ∷ [])
      ≡ ok f.last_key_related_rotation
    → (s : Store) → s.keys ≡ present k
    → password_of c.using_sharing s ≢ unreadable
    → ((d : Data)
        → password_of c.using_sharing s ≡ present d
        → is_some (entry_of encryption_rotation_key d) ≡ is_some u)
    → Serves f (generate_ltpa_config c s)
      ⊎ Serves f (generate_ltpa_config c (generate_ltpa_config c s).0)
generate_ltpa_config-Serves c k t u r o f l reads m s e readable kept =
    let bound = latest-bound c t u r.small o in
    let latest : f.last_key_related_rotation ≡ format_nat (latest_rotation t u) =
      ground (arith, m, r.rotation, max_of_rotations c t u r.small o) in
    elim (Updated-in_two c k t u r o s e readable kept) [
      | inl (done, x, kept_keys) ↦ inl (
        done,
        follows-updated f (generate_ltpa_config c s).0 k (latest_rotation t u) bound l reads latest
            kept_keys x,
      )
      | inr (done, x, kept_keys) ↦ inr (
        done,
        follows-updated f (generate_ltpa_config c (generate_ltpa_config c s).0).0 k
            (latest_rotation t u) bound l reads latest kept_keys x,
      )
    ]
