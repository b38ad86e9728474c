-- ===== src/Chaos/Cli.antt =====
-- chaos/__main__.py: the commands with their exit codes, and the connections that they open
-- (`production_environment` of chaos/environment.py).
pub mod Zero
use swarmscope.Base.{
  same_text, ℕ, Bool, true, false, Option, none, some, List, [], ◌∷◌, Text, ◌==◌, if◌then◌else◌,
  Result, ok, err,
}
use swarmscope.Chaos.Catalogue.{Fault}
use swarmscope.Chaos.State.{
  FaultState, Raised, is_exception, base_exception, fault_state_error, Format, Directory, load,
}
use swarmscope.Chaos.Runner.{
  Environment, FaultRunResult, RunStatus, recovered, recovery_pending, Failure, bare, Calls, Host,
  run, revert,
}

-- How the process ends: with a code, or with an exception that `main` lets through.
pub data Exit : Type 0 where
  code : ℕ → Exit
  uncaught : Raised → Exit

-- `_report`
unfoldable pub report : FaultRunResult → ℕ
report result = elim result.status [ recovered ↦ 0 | recovery_pending ↦ 2 ]

-- A KeyboardInterrupt is the `BaseException` of the number `interrupt`.
abbrev pub is_interrupt : ℕ → Raised → Bool
is_interrupt interrupt (base_exception n) = n == interrupt
is_interrupt interrupt _ = false

-- the two `except` clauses
abbrev pub exit_of_error : ℕ → Raised → Exit
exit_of_error interrupt e =
    if is_exception e then code 1 else if is_interrupt interrupt e then code 130 else uncaught e

unfoldable pub exit_of : ℕ → Result Failure FaultRunResult → Exit
unfolding report
exit_of interrupt (ok result) = code (report result)
exit_of interrupt (err failure) = exit_of_error interrupt failure.error

-- the catalogue's entry under an id
unfoldable pub find_fault : Text → List Fault → Option Fault
find_fault id [] = none
find_fault id (f ∷ fs) = let rest = find_fault id fs in if same_text f.id id then some f else rest

-- What `production_environment` opens, and what it closes at the end, in this order.
pub record Connections (W : Type 0) : Type 0 where
  pub open_all : W → Result Raised (Unit {0}) × W
  pub close_http_client : W → Result Raised (Unit {0}) × W
  pub close_administration : W → Result Raised (Unit {0}) × W
  pub close_credential : W → Result Raised (Unit {0}) × W
  pub dispose_engine : W → Result Raised (Unit {0}) × W

module _ {W : Type 0} where
  abbrev pub and_close :
      (W → Result Raised (Unit {0}) × W)
      → Result Raised (Unit {0}) × W
      → Result Raised (Unit {0}) × W
  and_close next (ok _, w) = next w
  and_close next (err e, w) = (err e, w)

  -- an exception of the closing takes the place of the body's result
  abbrev pub close_result :
      Result Failure FaultRunResult
      → Result Raised (Unit {0}) × W
      → Directory
      → Result Failure FaultRunResult × Host W
  close_result r (ok _, w) d = (r, record { world = w; disk = d })
  close_result r (err e, w) d = (err (bare e), record { world = w; disk = d })

module _ {W : Type 0} (connections : Connections W) where
  -- the `finally` block of `production_environment`
  unfoldable pub close_all : W → Result Raised (Unit {0}) × W
  close_all w = and_close connections.dispose_engine (
      and_close connections.close_credential
        (and_close connections.close_administration (connections.close_http_client w)))

  abbrev pub after_body :
      Result Failure FaultRunResult × Host W → Result Failure FaultRunResult × Host W
  after_body (r, h) = close_result r (close_all h.world) h.disk

  abbrev pub after_open :
      (Host W → Result Failure FaultRunResult × Host W)
      → Result Raised (Unit {0}) × W
      → Directory
      → Result Failure FaultRunResult × Host W
  after_open body (ok _, w) d = after_body (body (record { world = w; disk = d }))
  after_open body (err e, w) d = (err (bare e), record { world = w; disk = d })

  -- `async with production_environment(...)` around a call of the runner
  unfoldable pub with_environment :
      (Host W → Result Failure FaultRunResult × Host W)
      → Host W
      → Result Failure FaultRunResult × Host W
  unfolding close_all
  with_environment body h = after_open body (connections.open_all h.world) h.disk

-- the command line's arguments
pub data Command : Type 0 where
  list_faults revert_fault : Command
  show_symptom : Text → Command
  run_fault : Text → Bool → Command

-- Whether the first read of the state file by the `revert` command fails stands in `first_fails`.
module _ {W : Type 0} (environment : Environment W) (connections : Connections W) (format : Format)
    (calls : Calls) (first_fails : Bool) (interrupt : ℕ) where
  abbrev pub exiting : Result Failure FaultRunResult × Host W → Exit × Host W
  exiting (result, h) = (exit_of interrupt result, h)

  -- `_run_live` and `_revert_live`, with the two `except` clauses
  abbrev pub run_live : Fault → Host W → Exit × Host W
  run_live fault h = exiting (with_environment connections (run environment format calls fault) h)

  abbrev pub revert_live : Fault → Host W → Exit × Host W
  revert_live fault h =
      exiting (with_environment connections (revert environment format calls fault) h)

  -- `main` on `run <fault_id>` from the catalogue's entry on
  unfoldable pub run_found : Option Fault → Bool → Host W → Exit × Host W
  unfolding exit_of with_environment
  run_found none dry_run h = (code 1, h)
  run_found (some fault) true h = (code 0, h)
  run_found (some fault) false h = run_live fault h

  unfoldable pub revert_found : Option Fault → Host W → Exit × Host W
  unfolding exit_of with_environment
  revert_found none h = (code 1, h)
  revert_found (some fault) h = revert_live fault h

  -- `main` on `revert` from the loaded state on
  unfoldable pub revert_from :
      List Fault → Result Raised (Option FaultState) → Host W → Exit × Host W
  unfolding revert_found
  revert_from catalogue (err e) h = (exit_of_error interrupt e, h)
  revert_from catalogue (ok none) h = (exit_of_error interrupt fault_state_error, h)
  revert_from catalogue (ok (some state)) h = revert_found (find_fault state.fault_id catalogue) h

  abbrev pub found_code : Option Fault → ℕ
  found_code none = 1
  found_code (some fault) = 0

  -- `main` on `list`, where `symptoms` loads the catalogue once more, outside the `except` clauses
  abbrev pub listed : Option Raised → Host W → Exit × Host W
  listed none h = (code 0, h)
  listed (some e) h = (uncaught e, h)

  module _ (reload : Option Raised) where
    -- `main`, from the loaded catalogue on; `reload` is what the second load raises, if it does.
    unfoldable pub main : List Fault → Command → Host W → Exit × Host W
    unfolding run_found revert_from
    main catalogue list_faults h = listed reload h
    main catalogue revert_fault h = revert_from catalogue (load format first_fails h.disk) h
    main catalogue (show_symptom id) h = (code (found_code (find_fault id catalogue)), h)
    main catalogue (run_fault id dry_run) h = run_found (find_fault id catalogue) dry_run h
