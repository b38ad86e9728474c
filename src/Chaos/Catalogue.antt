-- ===== src/Chaos/Catalogue.antt =====
-- chaos/catalogue.py: the fault model and its validators. Python's `str.lower` is a parameter.
pub mod Restores
pub mod Load
use swarmscope.Base.{
  codes, same_text, ℕ, Bool, true, false, not, ◌&&◌, ◌||◌, Option, none, some, List, [], ◌∷◌, Text,
  Json, length, any, all, leb, ◌==◌, holds, if◌then◌else◌, is_none,
}

-- `==` where either side may be `None`
abbrev pub same_option : Option Text → Option Text → Bool
same_option none none = true
same_option none (some t) = false
same_option (some s) none = false
same_option (some s) (some t) = same_text s t

pub data EntityStatus : Type 0 where
  active disabled send_disabled receive_disabled : EntityStatus

-- the literals, which are the SDK's values too
abbrev pub value_of : EntityStatus → Text
value_of active = codes "Active"
value_of disabled = codes "Disabled"
value_of send_disabled = codes "SendDisabled"
value_of receive_disabled = codes "ReceiveDisabled"

abbrev pub is_active : EntityStatus → Bool
is_active active = true
is_active _ = false

-- `ComposeStep` with its two actions, `TopicStatusStep` and `SubscriptionStatusStep`
pub data Step : Type 0 where
  compose_stop : Text → Step
  compose_start : Text → Step
  topic_status : Text → EntityStatus → Step
  subscription_status : Text → Text → EntityStatus → Step

pub data Comparison : Type 0 where
  gt lt : Comparison

-- The threshold of an `SqlCheck`, a float, stands for its literal.
pub data Check : Type 0 where
  sql_check : (query : Text) (comparison : Comparison) (threshold : Text) (describe : Text) → Check
  http_check :
      (method path : Text) (body : Option Json) (status_at_least : ℕ) (describe : Text) → Check

pub record GroundTruth : Type 0 where
  pub summary : Text
  pub surface : Text
  pub evidence : List Text
  pub forbidden_in_symptom : List Text

pub record Symptom : Type 0 where
  pub fault_id : Text
  pub title : Text
  pub reported : Text

pub record Fault : Type 0 where
  pub id : Text
  pub title : Text
  pub symptom : Text
  pub settle_seconds : ℕ
  pub inject : List Step
  pub revert : List Step
  pub detects : Check
  pub ground_truth : GroundTruth

-- `Fault.public`
abbrev pub public_view : Fault → Symptom
public_view f = record { fault_id = f.id; title = f.title; reported = f.symptom }

-- `getattr(s, "status", None)`, and the same for `topic` and `subscription`
abbrev pub status_of : Step → Option EntityStatus
status_of (topic_status t s) = some s
status_of (subscription_status t n s) = some s
status_of _ = none

abbrev pub topic_of : Step → Option Text
topic_of (topic_status t s) = some t
topic_of (subscription_status t n s) = some t
topic_of _ = none

abbrev pub subscription_of : Step → Option Text
subscription_of (subscription_status t n s) = some n
subscription_of _ = none

-- the pairs of `restored` that are `key`
abbrev pub restores : Option Text → Option Text → Step → Bool
restores topic subscription s =
    holds is_active (status_of s)
    && same_option (topic_of s) topic
    && same_option (subscription_of s) subscription

-- membership in `restarted`
abbrev pub restarts : Text → Step → Bool
restarts service (compose_start s) = same_text s service
restarts service _ = false

-- what the loop over `inject` asks of one step
unfoldable pub is_undone : List Step → Step → Bool
is_undone revert (compose_stop service) = any (restarts service) revert
is_undone revert (compose_start service) = true
is_undone revert (topic_status t s) = is_active s || any (restores (some t) none) revert
is_undone revert (subscription_status t n s) =
    is_active s || any (restores (some t) (some n)) revert

-- `revert_must_restore_every_disabled_entity`
unfoldable pub revert_restores : Fault → Bool
unfolding is_undone
revert_restores f = all (is_undone f.revert) f.inject

-- `needle in text`
abbrev pub is_prefix : Text → Text → Bool
is_prefix [] t = true
is_prefix (c ∷ cs) [] = false
is_prefix (c ∷ cs) (d ∷ ds) = c == d && is_prefix cs ds

abbrev pub contains : Text → Text → Bool
contains needle [] = is_prefix needle []
contains needle (c ∷ cs) = is_prefix needle (c ∷ cs) || contains needle cs

-- `symptom_must_not_name_the_cause`
unfoldable pub symptom_is_clean : (Text → Text) → Fault → Bool
symptom_is_clean lower f =
    not (any (λ w. contains (lower w) (lower f.symptom)) f.ground_truth.forbidden_in_symptom)

abbrev pub between : ℕ → ℕ → ℕ → Bool
between low high n = leb low n && leb n high

abbrev pub is_lower : ℕ → Bool
is_lower = between 97 122

abbrev pub is_digit : ℕ → Bool
is_digit = between 48 57

-- the text ends with a character of `[a-z0-9]`, and has only those of `[a-z0-9-]` before it
abbrev pub ends_well : Text → Bool
ends_well [] = false
ends_well (c ∷ []) = is_lower c || is_digit c
ends_well (c ∷ d ∷ ds) = (is_lower c || is_digit c || c == 45) && ends_well (d ∷ ds)

-- `^[a-z][a-z0-9-]{2,48}[a-z0-9]$`
unfoldable pub is_fault_id : Text → Bool
is_fault_id [] = false
is_fault_id (c ∷ cs) = is_lower c && ends_well cs && between 3 49 (length cs)

abbrev pub is_filled {ℓ} : {A : Type ℓ} → List A → Bool
is_filled [] = false
is_filled (x ∷ xs) = true

-- the constraints of the fields and the two validators
abbrev pub passes : (Text → Text) → Fault → Bool
passes lower f =
    is_fault_id f.id
    && between 1 600 f.settle_seconds
    && is_filled f.inject
    && is_filled f.revert
    && is_filled f.ground_truth.evidence
    && symptom_is_clean lower f
    && revert_restores f

-- `Fault.model_validate` on values of the fields' types
unfoldable pub validate_fault : (Text → Text) → Fault → Option Fault
unfolding revert_restores symptom_is_clean is_fault_id
validate_fault lower f = if passes lower f then some f else none
