-- ===== src/Chaos/Tests.antt =====
-- Fault runs of chaos/runner.py in a small environment, and the theorems applied at them.
use swarmscope.Base.{
  Text, ◌+◌, ℕ, ◌≡◌, ◌↔◌, refl, ap, ◌⊎◌, Bool, true, false, Option, none, some, List, [], ◌∷◌,
  codes, ok, err, All, Result,
}
use swarmscope.Chaos.Catalogue.{
  Step, compose_stop, compose_start, topic_status, subscription_status, http_check, Fault,
  is_fault_id, revert_restores, validate_fault, active, disabled,
}
use swarmscope.Chaos.Catalogue.Restores.{Undone, revert_restores_iff}
use swarmscope.Chaos.State.{
  runtime_error, FaultState, Raised, Format, Directory, removes, load, record_state, clear, Trouble,
  at_write,
}
use swarmscope.Chaos.State.Atomic.{IsWhole, record_state-IsWhole}
use swarmscope.Chaos.Runner.{
  FaultRunResult, DetectionResult, Environment, RecoveryReport, Calls, Host, recovered, with_status,
  bare, run, revert, inject_fault, recover, apply_all,
}
use swarmscope.Chaos.Runner.Recovery.{IsRecovered}
use swarmscope.Chaos.Runner.Safety.{run_clears_safely, run_refuses, revert_clears_safely}
use swarmscope.Chaos.Runner.Status.{IsReported, recorded_payload, run_reports}
use swarmscope.Chaos.Runner.Plan.{step_lines}
use swarmscope.Chaos.Cli.{
  code, uncaught, Connections, list_faults, run_fault, revert_fault, main, find_fault, report,
}
use swarmscope.Chaos.Cli.Zero.{Leaves, main_zero}
use swarmscope.Chaos.Runner.Outcomes.{revert_completes}

-- The surroundings are whether the one service is down.
abbrev seen : Bool → DetectionResult
seen down = record { matched = down; observed = codes "503"; description = codes "orders fail" }

abbrev step_effect : Step → Bool → Bool
step_effect (compose_stop s) down = true
step_effect (compose_start s) down = false
step_effect (topic_status t s) down = down
step_effect (subscription_status t n s) down = down

abbrev environment : Environment Bool
environment = record {
  detect = λ c down. (ok (seen down), down);
  apply_step = λ s down. (ok tt, step_effect s down);
  sleep = λ n down. (ok tt, down);
}

abbrev encode : FaultState → List ℕ
encode s = s.injection_started_at ∷ s.fault_id

abbrev decode : List ℕ → Option FaultState
decode [] = none
decode (n ∷ id) = some (record { fault_id = id; injection_started_at = n })

abbrev format : Format
format = record { dump_json = encode; validate_json = decode; round_trip = λ s h. refl }

abbrev fault : Fault
fault = record {
  id = codes "postgres-down";
  title = codes "Orders fail";
  symptom = codes "POST /orders answers 503";
  settle_seconds = 5;
  inject = compose_stop (codes "postgres") ∷ [];
  revert = compose_start (codes "postgres") ∷ [];
  detects = http_check (codes "POST") (codes "/orders") none 500 (codes "orders fail");
  ground_truth = record {
    summary = codes "stopped";
    surface = codes "database";
    evidence = codes "no port" ∷ [];
    forbidden_in_symptom = codes "postgres" ∷ [];
  };
}

-- The id's pattern, the symptom and the revert list are in order.
fault-validated : validate_fault (λ t. t) fault ≡ some fault
unfolding validate_fault
fault-validated = refl

-- A revert list that disables its topic again at the end passes.
order_is_not_checked :
    revert_restores (record fault {
      inject = topic_status (codes "orders") disabled ∷ [];
      revert = topic_status (codes "orders") active ∷ topic_status (codes "orders") disabled ∷ [];
    })
    ≡ true
unfolding revert_restores
order_is_not_checked = refl

revert_restores_iff_example :
    (revert_restores fault ≡ true) ↔ All (Undone fault.revert) fault.inject
revert_restores_iff_example = revert_restores_iff fault

abbrev calls : Calls
calls = record {
  started_at = 100;
  load_fails = false;
  record_trouble = none;
  clear_load_fails = false;
  removal = removes;
}

abbrev no_files : Directory
no_files = record { target = none; temporary = none }

abbrev healthy : Host Bool
healthy = record { world = false; disk = no_files }

-- an interrupted run
abbrev pending_state : FaultState
pending_state = record { fault_id = codes "postgres-down"; injection_started_at = 90 }

abbrev pending : Host Bool
pending = record { world = true; disk = record no_files { target = some (encode pending_state) } }

abbrev fine : RecoveryReport
fine = record { observation = some (seen false); failures = [] }

run_recovers : (run environment format calls fault healthy).1 ≡ healthy
unfolding run load record_state inject_fault apply_all recover clear
run_recovers = refl

run_cleared : (run environment format calls fault healthy).1.disk.target ≡ none
run_cleared = ap (λ (h : Host Bool). h.disk.target) run_recovers

run_clears_safely_example :
    ((run environment format calls fault healthy).1.world ≡ false)
    ⊎ ((run environment format calls fault healthy).1.world ≡ false)
    ⊎ IsRecovered environment fault
        (inject_fault environment fault false).1
        (run environment format calls fault healthy).1.world
run_clears_safely_example = run_clears_safely environment format calls fault healthy run_cleared

run_refuses_example :
    (e : Raised) × (run environment format calls fault pending ≡ (err (bare e), pending))
run_refuses_example = run_refuses environment format calls fault pending (λ h. cc)

recover-fine : recover environment fault true ≡ (ok fine, false)
unfolding recover
recover-fine = refl

id-valid : is_fault_id fault.id ≡ true
unfolding is_fault_id
id-valid = refl

revert_completes_example : revert environment format calls fault pending ≡ (
  ok (with_status environment format calls fault recovered none fine),
  record { world = false; disk = no_files },
)
revert_completes_example =
    revert_completes environment format calls fault id-valid pending_state pending refl refl refl
      refl refl recover-fine refl

revert_cleared : (revert environment format calls fault pending).1.disk.target ≡ none
unfolding revert load recover clear
revert_cleared = refl

revert_clears_safely_example :
    IsRecovered environment fault true (revert environment format calls fault pending).1.world
revert_clears_safely_example =
    revert_clears_safely environment format calls fault pending (λ h. cc) revert_cleared

-- The process ends in the middle of the write.
abbrev cut_off : Trouble
cut_off = record { point = at_write; written = 2; killed = true }

record_state-IsWhole_example :
    IsWhole
      (encode pending_state)
      none
      (record_state format (some cut_off) pending_state no_files).1.target
    × ((record_state format (some cut_off) pending_state no_files).0 ≡ ok tt
        → (◌≡◌ {A = Option (List ℕ)} none none)
          × ((record_state format (some cut_off) pending_state no_files).1.target
              ≡ some (encode pending_state)))
record_state-IsWhole_example = record_state-IsWhole format (some cut_off) pending_state no_files

abbrev recovered_result : FaultRunResult
recovered_result = with_status environment format calls fault recovered (some (seen true)) fine

run-recovered : (run environment format calls fault healthy).0 ≡ ok recovered_result
unfolding run load record_state inject_fault apply_all recover clear
run-recovered = refl

run_reports_example :
    IsReported environment format calls fault
      (recorded_payload environment format calls fault)
      true
      recovered_result
      (run environment format calls fault healthy).1
unfolding inject_fault apply_all
run_reports_example = run_reports environment format calls fault healthy run-recovered

abbrev nothing : Bool → Result Raised (Unit {0}) × Bool
nothing down = (ok tt, down)

abbrev connections : Connections Bool
connections = record {
  open_all = nothing;
  close_http_client = nothing;
  close_administration = nothing;
  close_credential = nothing;
  dispose_engine = nothing;
}

run-exits :
    (main environment connections format calls false 1 none
      (fault ∷ [])
      (run_fault fault.id false)
      healthy).0
    ≡ code 0
unfolding main find_fault report run load record_state inject_fault apply_all recover clear
run-exits = refl

main_zero_example :
    Leaves environment connections format calls false 1
      (fault ∷ [])
      (run_fault fault.id false)
      healthy
      (main environment connections format calls false 1 none
        (fault ∷ [])
        (run_fault fault.id false)
        healthy).1
main_zero_example =
    main_zero environment connections format calls false 1 none (fault ∷ [])
      (run_fault fault.id false) healthy run-exits

revert-exits :
    (main environment connections format calls false 1 none (fault ∷ []) revert_fault pending).0
    ≡ code 0
unfolding main find_fault report revert load recover clear
revert-exits = refl

reverted :
    Leaves environment connections format calls false 1
      (fault ∷ [])
      revert_fault
      pending
      (main environment connections format calls false 1 none (fault ∷ []) revert_fault pending).1
reverted =
    main_zero environment connections format calls false 1 none (fault ∷ []) revert_fault pending
      revert-exits

-- numbers below ten
abbrev digit : ℕ → Text
digit n = (48 + n) ∷ []

step_is_numbered :
    step_lines digit 1 fault.revert ≡ codes "  1. compose start postgres (project swarmscope)" ∷ []
unfolding step_lines
step_is_numbered = refl

-- `list`, where the second load of the catalogue raises
list_raises :
    (main environment connections format calls false 1
      (some runtime_error)
      []
      list_faults
      healthy).0
    ≡ uncaught runtime_error
unfolding main
list_raises = refl
