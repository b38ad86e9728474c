-- ===== src/Chaos/Environment.antt =====
-- chaos/environment.py: how a check is observed, and how a step is applied and read back. The
-- services that it talks to are parameters over the state of what surrounds the runner.
pub mod Commands
pub mod ReadBack
pub mod Restored
pub mod Recovered
mod Tests
use swarmscope.Base.{
  ℕ, Bool, true, false, Option, none, some, List, [], ◌∷◌, Text, Json, codes, same_text, leb,
  if◌then◌else◌, Result, ok, err,
}
use swarmscope.Chaos.Catalogue.{
  value_of, EntityStatus, active, disabled, send_disabled, receive_disabled, Step, compose_stop,
  compose_start, topic_status, subscription_status, Comparison, gt, lt, Check, sql_check,
  http_check, same_option,
}
use swarmscope.Chaos.State.{Raised, runtime_error}
use swarmscope.Chaos.Runner.{DetectionResult, Environment}

-- a `status`: a member of the SDK's enumeration, by its value, or a string
pub data Status : Type 0 where
  member : Text → Status
  string : Text → Status

-- `_status_value`
unfoldable pub status_value : Option Status → Option Text
status_value none = none
status_value (some (member t)) = some t
status_value (some (string t)) = some t

-- `TopicProperties` and `SubscriptionProperties`; the other properties stand in one value
pub record Properties : Type 0 where
  pub name : Text
  pub status : Option Status
  pub others : Json

-- What a call of a service returns or raises, with the surroundings after it.
abbrev pub Effect : Type 0 → Type 0 → Type 0
Effect W A = W → Result Raised A × W

-- The fields of `FaultEnvironment` with the sleeper; `F` are Python's floats.
pub record Services (W F : Type 0) : Type 0 where
  pub sql_scalar : Text → Effect W F
  pub greater : F → Text → Bool
  pub less : F → Text → Bool
  pub print_float : F → Text
  pub request : Text → Text → Option Json → Effect W ℕ
  pub print_code : ℕ → Text
  pub get_topic : Text → Effect W Properties
  pub update_topic : Properties → Effect W (Unit {0})
  pub get_subscription : Text → Text → Effect W Properties
  pub update_subscription : Text → Properties → Effect W (Unit {0})
  pub command_runner : List Text → Effect W (Unit {0})
  pub compose_file : Text
  pub sleep : ℕ → Effect W (Unit {0})

-- what follows a call that returned
abbrev pub continue :
    {W A B : Type 0} → (A → Effect W B) → Result Raised A × W → Result Raised B × W
continue f (ok a, w) = f a w
continue f (err e, w) = (err e, w)

module _ {W F : Type 0} (services : Services W F) where
  -- `_matches`
  unfoldable pub matches : Comparison → Text → F → Bool
  matches gt threshold observed = services.greater observed threshold
  matches lt threshold observed = services.less observed threshold

  -- `FaultEnvironment.detect`
  unfoldable pub detect : Check → Effect W DetectionResult
  unfolding matches
  detect (sql_check query comparison threshold describe) w =
      continue
        (λ observed w'. (
          ok (record {
            matched = matches comparison threshold observed;
            observed = services.print_float observed;
            description = describe;
          }),
          w',
        ))
        (services.sql_scalar query w)
  detect (http_check method path body status_at_least describe) w =
      continue
        (λ status_code w'. (
          ok (record {
            matched = leb status_at_least status_code;
            observed = services.print_code status_code;
            description = describe;
          }),
          w',
        ))
        (services.request method path body w)

  -- the command of a `ComposeStep`
  abbrev pub compose : Text → Text → List Text
  compose verb service =
      codes "docker"
      ∷ codes "compose"
      ∷ codes "--project-name"
      ∷ codes "swarmscope"
      ∷ codes "--file"
      ∷ services.compose_file
      ∷ verb
      ∷ service
      ∷ []

  -- `topic.status = expected`
  abbrev pub set_status : EntityStatus → Properties → Properties
  set_status expected p = record p { status = some (member (value_of expected)) }

  -- the comparison of the status that was read back
  unfoldable pub demand_status : EntityStatus → Properties → Effect W (Unit {0})
  unfolding status_value
  demand_status expected updated w =
      if same_option (status_value updated.status) (some (value_of expected))
      then (ok tt, w)
      else (err runtime_error, w)

  abbrev pub set_topic : Text → EntityStatus → Effect W (Unit {0})
  set_topic topic expected w =
      continue
        (λ p w'.
          continue (λ _ w''. continue (demand_status expected) (services.get_topic topic w''))
            (services.update_topic (set_status expected p) w'))
        (services.get_topic topic w)

  abbrev pub set_subscription : Text → Text → EntityStatus → Effect W (Unit {0})
  set_subscription topic subscription expected w =
      continue
        (λ p w'.
          continue
            (λ _ w''.
              continue (demand_status expected) (services.get_subscription topic subscription w''))
            (services.update_subscription topic (set_status expected p) w'))
        (services.get_subscription topic subscription w)

  -- `FaultEnvironment.apply`
  unfoldable pub apply_step : Step → Effect W (Unit {0})
  unfolding demand_status
  apply_step (compose_stop service) w = services.command_runner (compose (codes "stop") service) w
  apply_step (compose_start service) w = services.command_runner (compose (codes "start") service) w
  apply_step (topic_status topic status) w = set_topic topic status w
  apply_step (subscription_status topic subscription status) w =
      set_subscription topic subscription status w

  -- the environment of a runner
  abbrev pub fault_environment : Environment W
  fault_environment = record { detect = detect; apply_step = apply_step; sleep = services.sleep }
