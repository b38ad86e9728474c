-- ===== src/Chaos/Runner.antt =====
-- chaos/runner.py: `FaultRunner`, which injects a fault, checks its symptom and reverts it.
pub mod Recovery
pub mod Safety
pub mod Outcomes
pub mod Status
pub mod Reverted
pub mod Plan
use swarmscope.Base.{
  same_text, ℕ, ◌≡◌, Bool, true, false, not, ◌&&◌, Option, none, some, List, [], ◌∷◌, Text, holds,
  if◌then◌else◌, Result, ok, err, ◌>>=◌,
}
use swarmscope.Chaos.Catalogue.{Step, Check, Fault}
use swarmscope.Chaos.State.{
  FaultState, Raised, recovery_required, symptom_already_present, injection_not_detected,
  revert_failed, is_exception, Format, Directory, Trouble, Removal, load, record_state, clear,
}

-- `observed` is only printed, and stands for its digits.
pub record DetectionResult : Type 0 where
  pub matched : Bool
  pub observed : Text
  pub description : Text

-- The `Environment` protocol with the sleeper, over the state of what surrounds the runner.
pub record Environment (W : Type 0) : Type 0 where
  pub detect : Check → W → Result Raised DetectionResult × W
  pub apply_step : Step → W → Result Raised (Unit {0}) × W
  pub sleep : ℕ → W → Result Raised (Unit {0}) × W

-- the entries of `failures`, before they are printed
pub data RevertFailure : Type 0 where
  step_failed : Step → Raised → RevertFailure
  check_failed : Raised → RevertFailure

pub data RunStatus : Type 0 where
  recovered recovery_pending : RunStatus

pub record RecoveryReport : Type 0 where
  pub observation : Option DetectionResult
  pub failures : List RevertFailure

abbrev pub no_failures : List RevertFailure → Bool
no_failures [] = true
no_failures (f ∷ fs) = false

-- `RecoveryReport.verified`
abbrev pub verified : RecoveryReport → Bool
verified r = no_failures r.failures && holds (λ o. not o.matched) r.observation

pub record FaultRunResult : Type 0 where
  pub fault_id : Text
  pub status : RunStatus
  pub injected : Option DetectionResult
  pub recovery : RecoveryReport

-- the notes that `add_note` attaches
pub data Note : Type 0 where
  not_cleared : Raised → Note
  not_verified : List RevertFailure → Note

pub record Failure : Type 0 where
  pub error : Raised
  pub notes : List Note

abbrev pub bare : Raised → Failure
bare e = record { error = e; notes = [] }

-- How the state file's calls go in one run, and the time that the clock gives.
pub record Calls : Type 0 where
  pub started_at : ℕ
  pub load_fails : Bool
  pub record_trouble : Option Trouble
  pub clear_load_fails : Bool
  pub removal : Removal

-- `failures.append`
abbrev pub append_failure : RevertFailure → List RevertFailure → List RevertFailure
append_failure f [] = f ∷ []
append_failure f (g ∷ gs) = g ∷ append_failure f gs

module _ {W : Type 0} where
  -- one step with what follows it, where nothing is caught
  abbrev pub then_rest :
      Result Raised (Unit {0}) × W → Result Raised (Unit {0}) × W → Result Raised (Unit {0}) × W
  then_rest (ok _, w) rest = rest
  then_rest (err e, w) rest = (err e, w)

  abbrev pub with_failure :
      RevertFailure
      → Result Raised (List RevertFailure) × W
      → Result Raised (List RevertFailure) × W
  with_failure f (ok fs, w) = (ok (f ∷ fs), w)
  with_failure f (err e, w) = (err e, w)

  -- one step of `_recover` with what follows it: an `Exception` is noted
  abbrev pub then_revert :
      Step
      → Result Raised (Unit {0}) × W
      → Result Raised (List RevertFailure) × W
      → Result Raised (List RevertFailure) × W
  then_revert s (ok _, w) rest = rest
  then_revert s (err e, w) rest =
      if is_exception e then with_failure (step_failed s e) rest else (err e, w)

  -- the end of the injection: the symptom must be there
  abbrev pub demand_matched : Result Raised DetectionResult × W → Result Raised DetectionResult × W
  demand_matched (ok d, w) = (if d.matched then ok d else err injection_not_detected, w)
  demand_matched (err e, w) = (err e, w)

  -- the check after the revert steps
  abbrev pub after_check :
      List RevertFailure → Result Raised DetectionResult × W → Result Raised RecoveryReport × W
  after_check failures (ok d, w) = (ok (record { observation = some d; failures = failures }), w)
  after_check failures (err e, w) =
      if is_exception e
      then (
        ok (record { observation = none; failures = append_failure (check_failed e) failures }),
        w,
      )
      else (err e, w)

module _ {W : Type 0} (environment : Environment W) where
  -- `for step in fault.inject: await self.environment.apply(step)`
  unfoldable pub apply_all : List Step → W → Result Raised (Unit {0}) × W
  apply_all [] w = (ok tt, w)
  apply_all (s ∷ steps) w =
      let rest = apply_all steps (environment.apply_step s w).1 in
      then_rest (environment.apply_step s w) rest

  abbrev pub after_sleep : Fault → Result Raised (Unit {0}) × W → Result Raised DetectionResult × W
  after_sleep fault (ok _, w) = demand_matched (environment.detect fault.detects w)
  after_sleep fault (err e, w) = (err e, w)

  abbrev pub after_inject : Fault → Result Raised (Unit {0}) × W → Result Raised DetectionResult × W
  after_inject fault (ok _, w) = after_sleep fault (environment.sleep fault.settle_seconds w)
  after_inject fault (err e, w) = (err e, w)

  -- the `try` block of `run`
  unfoldable pub inject_fault : Fault → W → Result Raised DetectionResult × W
  inject_fault fault w = after_inject fault (apply_all fault.inject w)

  -- the loop of `_recover`
  unfoldable pub revert_steps : List Step → W → Result Raised (List RevertFailure) × W
  revert_steps [] w = (ok [], w)
  revert_steps (s ∷ steps) w =
      let rest = revert_steps steps (environment.apply_step s w).1 in
      then_revert s (environment.apply_step s w) rest

  abbrev pub after_revert :
      Fault → Result Raised (List RevertFailure) × W → Result Raised RecoveryReport × W
  after_revert fault (ok failures, w) = after_check failures (environment.detect fault.detects w)
  after_revert fault (err e, w) = (err e, w)

  -- `_recover`
  unfoldable pub recover : Fault → W → Result Raised RecoveryReport × W
  unfolding revert_steps
  recover fault w = after_revert fault (revert_steps fault.revert w)

-- the surroundings and the state file
pub record Host (W : Type 0) : Type 0 where
  pub world : W
  pub disk : Directory

module _ {W : Type 0} (environment : Environment W) (format : Format) (calls : Calls)
    (fault : Fault) where
  abbrev pub clear_fault : Directory → Result Raised (Unit {0}) × Directory
  clear_fault d = clear format calls.clear_load_fails calls.removal fault.id d

  -- what a clearing that raised leaves on the error, in `_finish_failed_run`
  abbrev pub noting : Raised → Result Raised (Unit {0}) × Directory → Failure × Directory
  noting error (ok _, d) = (bare error, d)
  noting error (err e, d) =
      if is_exception e
      then (record { error = error; notes = not_cleared e ∷ [] }, d)
      else (bare e, d)

  -- `_finish_failed_run`, with the `raise` after it
  unfoldable pub finish_failed_run : RecoveryReport → Raised → Directory → Failure × Directory
  finish_failed_run recovery error d =
      if verified recovery
      then noting error (clear_fault d)
      else (record { error = error; notes = not_verified recovery.failures ∷ [] }, d)

  abbrev pub with_status : RunStatus → Option DetectionResult → RecoveryReport → FaultRunResult
  with_status status injected recovery = record {
    fault_id = fault.id;
    status = status;
    injected = injected;
    recovery = recovery;
  }

  abbrev pub after_clear :
      FaultRunResult
      → Result Raised (Unit {0}) × Directory
      → Result Failure FaultRunResult × Directory
  after_clear result (ok _, d) = (ok result, d)
  after_clear result (err e, d) = (err (bare e), d)

  -- `_finish_successful_run` from the observation on
  abbrev pub finish_observed :
      Option DetectionResult
      → RecoveryReport
      → Option DetectionResult
      → Directory
      → Result Failure FaultRunResult × Directory
  finish_observed injected recovery none d = (err (bare revert_failed), d)
  finish_observed injected recovery (some o) d =
      if no_failures recovery.failures
      then if o.matched
        then (ok (with_status recovery_pending injected recovery), d)
        else after_clear (with_status recovered injected recovery) (clear_fault d)
      else (err (bare revert_failed), d)

  -- `_finish_successful_run`
  unfoldable pub finish_successful_run :
      Option DetectionResult
      → RecoveryReport
      → Directory
      → Result Failure FaultRunResult × Directory
  finish_successful_run injected recovery d =
      finish_observed injected recovery recovery.observation d

  -- the recovery after an injection that raised
  unfoldable pub after_failed :
      Raised → Result Raised RecoveryReport × W → Directory → Result Failure FaultRunResult × Host W
  unfolding finish_failed_run
  after_failed error (err e, w) d = (err (bare e), record { world = w; disk = d })
  after_failed error (ok recovery, w) d =
      let (failure, d') = finish_failed_run recovery error d in
      (err failure, record { world = w; disk = d' })

  -- the recovery after an injection that worked
  unfoldable pub after_success :
      Option DetectionResult
      → Result Raised RecoveryReport × W
      → Directory
      → Result Failure FaultRunResult × Host W
  unfolding finish_successful_run
  after_success injected (err e, w) d = (err (bare e), record { world = w; disk = d })
  after_success injected (ok recovery, w) d =
      let (result, d') = finish_successful_run injected recovery d in
      (result, record { world = w; disk = d' })

  unfoldable pub after_injection :
      Result Raised DetectionResult × W → Directory → Result Failure FaultRunResult × Host W
  unfolding after_failed after_success
  after_injection (err e, w) d = after_failed e (recover environment fault w) d
  after_injection (ok injected, w) d = after_success (some injected) (recover environment fault w) d

  -- from the recorded obligation on
  unfoldable pub after_record :
      Result Raised (Unit {0}) × Directory → W → Result Failure FaultRunResult × Host W
  unfolding after_injection
  after_record (err e, d) w = (err (bare e), record { world = w; disk = d })
  after_record (ok _, d) w = after_injection (inject_fault environment fault w) d

  abbrev pub new_state : FaultState
  new_state = record { fault_id = fault.id; injection_started_at = calls.started_at }

  -- from the first detection on
  unfoldable pub after_before :
      Result Raised DetectionResult × W → Directory → Result Failure FaultRunResult × Host W
  unfolding after_record
  after_before (err e, w) d = (err (bare e), record { world = w; disk = d })
  after_before (ok before, w) d =
      let rest = after_record (record_state format calls.record_trouble new_state d) w in
      if before.matched
      then (err (bare symptom_already_present), record { world = w; disk = d })
      else rest

  unfoldable pub after_load :
      Result Raised (Option FaultState) → Host W → Result Failure FaultRunResult × Host W
  unfolding after_before
  after_load (err e) h = (err (bare e), h)
  after_load (ok (some outstanding)) h = (err (bare recovery_required), h)
  after_load (ok none) h = after_before (environment.detect fault.detects h.world) h.disk

  -- `FaultRunner.run`
  unfoldable pub run : Host W → Result Failure FaultRunResult × Host W
  unfolding after_load
  run h = after_load (load format calls.load_fails h.disk) h

  unfoldable pub revert_loaded :
      Result Raised (Option FaultState) → Host W → Result Failure FaultRunResult × Host W
  unfolding after_success
  revert_loaded (err e) h = (err (bare e), h)
  revert_loaded (ok none) h = (err (bare recovery_required), h)
  revert_loaded (ok (some outstanding)) h =
      let reverted = after_success none (recover environment fault h.world) h.disk in
      if same_text outstanding.fault_id fault.id
      then reverted
      else (err (bare recovery_required), h)

  -- `FaultRunner.revert`
  unfoldable pub revert : Host W → Result Failure FaultRunResult × Host W
  unfolding revert_loaded
  revert h = revert_loaded (load format calls.load_fails h.disk) h
