-- ===== src/Performance/Conditions.antt =====
-- The conditions of a status (api/v1/openlibertyperformancedata_types.go, api/v1/operations.go).
use open_liberty_operator.Common.{
  ℕ, Str, ◌==◌, str_eq, Bool, true, false, not, ◌||◌, List, [], ◌∷◌, Option, none, some,
  if◌then◌else◌, ◌≡◌, refl, ap, inl, inr, arith, Comparable, ◌↔◌, Bool-cases,
}

-- `OperationStatusConditionType`.
pub data ConditionType : Type 0 where
  enabled started completed failed : ConditionType

abbrev pub type_beq : ConditionType → ConditionType → Bool
type_beq enabled enabled = true
type_beq started started = true
type_beq completed completed = true
type_beq failed failed = true
type_beq _ _ = false

pub type_beq_iff : (a b : ConditionType) → (type_beq a b ≡ true) ↔ (a ≡ b)
type_beq_iff enabled b = from b
  where
    from : (b : ConditionType) → (type_beq enabled b ≡ true) ↔ (enabled ≡ b)
    from enabled = ground arith
    from started = ground arith
    from completed = ground arith
    from failed = ground arith
type_beq_iff started b = from b
  where
    from : (b : ConditionType) → (type_beq started b ≡ true) ↔ (started ≡ b)
    from enabled = ground arith
    from started = ground arith
    from completed = ground arith
    from failed = ground arith
type_beq_iff completed b = from b
  where
    from : (b : ConditionType) → (type_beq completed b ≡ true) ↔ (completed ≡ b)
    from enabled = ground arith
    from started = ground arith
    from completed = ground arith
    from failed = ground arith
type_beq_iff failed b = from b
  where
    from : (b : ConditionType) → (type_beq failed b ≡ true) ↔ (failed ≡ b)
    from enabled = ground arith
    from started = ground arith
    from completed = ground arith
    from failed = ground arith

instance abbrev pub type_eq : Comparable ConditionType
type_eq = record { same = type_beq; same_iff = type_beq_iff }

-- `corev1.ConditionStatus`; a new condition has none.
pub data ConditionStatus : Type 0 where
  unset holds fails unknown : ConditionStatus

abbrev pub status_beq : ConditionStatus → ConditionStatus → Bool
status_beq unset unset = true
status_beq holds holds = true
status_beq fails fails = true
status_beq unknown unknown = true
status_beq _ _ = false

-- `OperationStatusCondition`, with the time of the last transition in seconds.
pub record Condition : Type 0 where
  pub type_of : ConditionType
  pub status_of : ConditionStatus
  pub reason : Str
  pub message : Str
  pub last_transition : Option ℕ

-- `GetOperationCondtion`.
unfoldable pub get_condition : List Condition → ConditionType → Option Condition
get_condition [] t = none
get_condition (c ∷ cs) t = if c.type_of == t then some c else get_condition cs t

-- The condition `SetCondition` writes over an old one, at the time `now`.
unfoldable pub overwritten : ℕ → Condition → Condition → Condition
overwritten now old c = record {
  type_of = c.type_of;
  status_of = c.status_of;
  reason = c.reason;
  message = c.message;
  last_transition =
      if not (status_beq old.status_of c.status_of)
        || not (old.message == c.message)
        || not (old.reason == c.reason)
      then some now
      else old.last_transition;
}

-- The condition that `SetCondition` appends: the one that is written over an empty condition.
unfoldable pub appended : ℕ → Condition → Condition
appended now c = record {
  type_of = c.type_of;
  status_of = c.status_of;
  reason = c.reason;
  message = c.message;
  last_transition =
      if not (status_beq unset c.status_of) || not (c.message == []) || not (c.reason == [])
      then some now
      else none;
}

-- `SetCondition`.
unfoldable pub set_condition : ℕ → Condition → List Condition → List Condition
unfolding overwritten appended
set_condition now c [] = appended now c ∷ []
set_condition now c (d ∷ cs) =
    let rest = set_condition now c cs in
    if d.type_of == c.type_of then overwritten now d c ∷ cs else d ∷ rest

abbrev pub SaysSame : Condition → Option Condition → Type 0
SaysSame c none = ⊥
SaysSame c (some d) =
    (d.type_of ≡ c.type_of)
    × (d.status_of ≡ c.status_of)
    × (d.reason ≡ c.reason)
    × (d.message ≡ c.message)

same_type : (t : ConditionType) → type_beq t t ≡ true
same_type t = ground (arith, type_beq_iff t t)

same_test : (a b t : ConditionType) → type_beq a b ≡ true → type_beq a t ≡ type_beq b t
same_test a b t h = let e : a ≡ b = ground (arith, h, type_beq_iff a b) in ap (λ w. type_beq w t) e

-- After `SetCondition`, the condition of its type says what was set.
pub get-set_condition :
    (now : ℕ) (c : Condition) (cs : List Condition)
    → SaysSame c (get_condition (set_condition now c cs) c.type_of)
unfolding get_condition set_condition overwritten appended
get-set_condition now c [] = rw (same_type c.type_of) (refl, refl, refl, refl)
get-set_condition now c (d ∷ cs) = elim (Bool-cases (type_beq d.type_of c.type_of)) [
  | inl e ↦ rw (e, get_condition, same_type c.type_of) (refl, refl, refl, refl)
  | inr e ↦ rw (e, get_condition, e) (get-set_condition now c cs)
]

-- `SetCondition` leaves the conditions of the other types as they are.
pub get-set_other :
    (now : ℕ) (c : Condition) (cs : List Condition) (t : ConditionType)
    → (c.type_of == t) ≡ false
    → get_condition (set_condition now c cs) t ≡ get_condition cs t
unfolding get_condition set_condition overwritten appended
get-set_other now c [] t h = rw h refl
get-set_other now c (d ∷ cs) t h = elim (Bool-cases (type_beq d.type_of c.type_of)) [
  | inl e ↦ ground (arith, e, h, same_test d.type_of c.type_of t e)
  | inr e ↦ ground (arith, e, h, get-set_other now c cs t h)
]
