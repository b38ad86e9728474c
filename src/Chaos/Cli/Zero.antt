-- ===== src/Chaos/Cli/Zero.antt =====
-- chaos/__main__.py: what an exit with 0 of a fault run, or of a revert, says.
use swarmscope.Base.{
  same_text, same_text-eq, ℕ, ◌≡◌, ◌≢◌, refl, sym, inl, inr, Bool, true, false, Bool-cases, Option,
  none, some, List, [], ◌∷◌, Text, Result, ok, err, In, arith, subst, ap, some_inj,
}
use swarmscope.Chaos.Catalogue.{Fault}
use swarmscope.Chaos.State.{
  FaultState, Raised, is_exception, fault_state_error, Format, Directory, load,
}
use swarmscope.Chaos.Runner.{
  Environment, FaultRunResult, RunStatus, recovered, recovery_pending, Failure, Calls, Host,
  inject_fault, run, revert, bare,
}
use swarmscope.Chaos.Runner.Recovery.{IsRecovered}
use swarmscope.Chaos.Runner.Status.{run_reports}
use swarmscope.Chaos.Runner.Reverted.{revert-IsReported}
use swarmscope.Chaos.Cli.{
  Exit, code, uncaught, is_interrupt, exit_of_error, exit_of, find_fault, Connections, close_all,
  after_open, close_result, with_environment, Command, list_faults, revert_fault, show_symptom,
  run_fault, run_found, revert_found, revert_from, main,
}

-- the code, where an exception that leaves `main` counts as a failure
abbrev code_of : Exit → ℕ
code_of (code n) = n
code_of (uncaught e) = 1

exit_of_error-failing : (interrupt : ℕ) (e : Raised) → code_of (exit_of_error interrupt e) ≢ 0
exit_of_error-failing interrupt e h = elim (Bool-cases (is_exception e)) [
  | inl caught ↦ let h' = rw caught at h in omega (arith, h')
  | inr passed ↦ elim (Bool-cases (is_interrupt interrupt e)) [
    | inl stopped ↦ let h' = rw (passed, stopped) at h in omega (arith, h')
    | inr other ↦ let h' = rw (passed, other) at h in omega (arith, h')
  ]
]

report-recovered :
    (r : FaultRunResult) (s : RunStatus)
    → r.status ≡ s
    → (elim s as (λ _. ℕ) [ recovered ↦ 0 | recovery_pending ↦ 2 ]) ≡ 0
    → r.status ≡ recovered
report-recovered r recovered e h = e
report-recovered r recovery_pending e h = absurd (omega (arith, h))

find_fault-In :
    (id : Text) (fs : List Fault) (f : Fault) → find_fault id fs ≡ some f → In f fs × (f.id ≡ id)
unfolding find_fault
find_fault-In id [] f h = absurd (cc)
find_fault-In id (g ∷ fs) f h = elim (Bool-cases (same_text g.id id)) [
  | inl hit ↦
      let same = some_inj (rw hit at h) in
      (inl (sym same), subst (λ (x : Fault). x.id ≡ id) same (same_text-eq g.id id hit))
  | inr miss ↦ let (inside, named) = find_fault-In id fs f (rw miss at h) in (inr inside, named)
]

module _ {W : Type 0} (environment : Environment W) (connections : Connections W) (format : Format)
    (calls : Calls) (first_fails : Bool) (interrupt : ℕ) where
  -- The connections were opened, and closed at the end; between them the fault was recovered, from
  -- the world that `begin` leads to after the opening.
  pub record IsLive (fault : Fault) (begin : W → W) (w w' : W) : Type 0 where
    pub opened : W
    pub done : W
    pub opens : connections.open_all w ≡ (ok tt, opened)
    pub closes : close_all connections done ≡ (ok tt, w')
    pub recovers : IsRecovered environment fault (begin opened) done

  -- What a call of the runner that reports RECOVERED has done.
  abbrev Good : (Host W → Result Failure FaultRunResult × Host W) → Fault → (W → W) → Type 0
  Good body fault begin =
      (h : Host W) (result : FaultRunResult)
      → (body h).0 ≡ ok result
      → result.status ≡ recovered
      → ((body h).1.disk.target ≡ none)
        × IsRecovered environment fault (begin h.world) (body h).1.world

  code_of-ok :
      (r : Result Failure FaultRunResult)
      → code_of (exit_of interrupt r) ≡ 0
      → (result : FaultRunResult) × (r ≡ ok result) × (result.status ≡ recovered)
  unfolding exit_of
  code_of-ok (ok result) zero_code =
      (result, refl, report-recovered result result.status refl zero_code)
  code_of-ok (err failure) zero_code =
      absurd (exit_of_error-failing interrupt failure.error zero_code)

  -- the exit, with what it left, after the closing
  after_close-IsLive :
      (fault : Fault) (begin : W → W) (w opened : W)
      → connections.open_all w ≡ (ok tt, opened)
      → (r : Result Failure FaultRunResult) (done : W) (d : Directory)
        (x : Result Raised (Unit {0}) × W)
      → close_all connections done ≡ x
      → ((result : FaultRunResult)
          → r ≡ ok result
          → result.status ≡ recovered
          → (d.target ≡ none) × IsRecovered environment fault (begin opened) done)
      → code_of (exit_of interrupt (close_result r x d).0) ≡ 0
      → ((close_result r x d).1.disk.target ≡ none)
        × IsLive fault begin w (close_result r x d).1.world
  after_close-IsLive fault begin w opened opens r done d (ok _, w') closes good zero_code =
      let (result, returned, status) = code_of-ok r zero_code in
      let (gone, recovers) = good result returned status in
      (
        gone,
        record {
          opened = opened;
          done = done;
          opens = opens;
          closes = closes;
          recovers = recovers;
        },
      )
  after_close-IsLive fault begin w opened opens r done d (err e, w') closes good zero_code =
      absurd (let (result, returned, status) = code_of-ok (err (bare e)) zero_code in cc)

  after_open-IsLive :
      (body : Host W → Result Failure FaultRunResult × Host W) (fault : Fault) (begin : W → W)
      → Good body fault begin
      → (w : W) (d : Directory) (x : Result Raised (Unit {0}) × W) → connections.open_all w ≡ x
      → code_of (exit_of interrupt (after_open connections body x d).0) ≡ 0
      → ((after_open connections body x d).1.disk.target ≡ none)
        × IsLive fault begin w (after_open connections body x d).1.world
  after_open-IsLive body fault begin good w d (ok _, opened) opens zero_code =
      let h = body (record { world = opened; disk = d }) in
      after_close-IsLive fault begin w opened opens h.0 h.1.world h.1.disk
        (close_all connections h.1.world) refl
        (λ result. good (record { world = opened; disk = d }) result) zero_code
  after_open-IsLive body fault begin good w d (err e, w') opens zero_code =
      absurd (let (result, returned, status) = code_of-ok (err (bare e)) zero_code in cc)

  run-Good :
      (fault : Fault)
      → Good
          (run environment format calls fault)
          fault
          (λ w. (inject_fault environment fault (environment.detect fault.detects w).1).1)
  run-Good fault h result returned status =
      let rep = run_reports environment format calls fault h returned in
      (rep.cleared status, rep.healthy status)

  revert-Good : (fault : Fault) → Good (revert environment format calls fault) fault (λ w. w)
  revert-Good fault h result returned status =
      let (payload, held, rep) = revert-IsReported environment format calls fault h returned in
      (rep.cleared status, rep.healthy status)

  -- the world after the injection, from the first check on
  abbrev pub injected : Fault → W → W
  injected fault w = (inject_fault environment fault (environment.detect fault.detects w).1).1

  -- What a command leaves when it exits with 0.
  abbrev pub Leaves : List Fault → Command → Host W → Host W → Type 0
  Leaves catalogue list_faults h h' = h' ≡ h
  Leaves catalogue (show_symptom id) h h' = h' ≡ h
  Leaves catalogue (run_fault id true) h h' = h' ≡ h
  Leaves catalogue (run_fault id false) h h' =
      (fault : Fault) × In fault catalogue
      × (fault.id ≡ id)
      × (h'.disk.target ≡ none)
      × IsLive fault (injected fault) h.world h'.world
  Leaves catalogue revert_fault h h' =
      (fault : Fault) × (state : FaultState) × In fault catalogue
      × (load format first_fails h.disk ≡ ok (some state))
      × (fault.id ≡ state.fault_id)
      × (h'.disk.target ≡ none)
      × IsLive fault (λ w. w) h.world h'.world

  run_found-Leaves :
      (catalogue : List Fault) (id : Text) (found : Option Fault) (h : Host W)
      → find_fault id catalogue ≡ found
      → code_of
          (run_found environment connections format calls first_fails interrupt found false h).0
        ≡ 0
      → Leaves catalogue
          (run_fault id false)
          h
          (run_found environment connections format calls first_fails interrupt found false h).1
  unfolding run_found with_environment
  run_found-Leaves catalogue id none h found zero_code = absurd (omega (arith, zero_code))
  run_found-Leaves catalogue id (some fault) h found zero_code =
      let (inside, same) = find_fault-In id catalogue fault found in
      let (gone, live) =
        after_open-IsLive (run environment format calls fault) fault (injected fault)
          (run-Good fault) h.world h.disk (connections.open_all h.world) refl zero_code in
      (fault, inside, same, gone, live)

  revert_found-Leaves :
      (catalogue : List Fault) (state : FaultState) (found : Option Fault) (h : Host W)
      → load format first_fails h.disk ≡ ok (some state)
      → find_fault state.fault_id catalogue ≡ found
      → code_of (revert_found environment connections format calls first_fails interrupt found h).0
        ≡ 0
      → Leaves catalogue revert_fault h
          (revert_found environment connections format calls first_fails interrupt found h).1
  unfolding revert_found with_environment
  revert_found-Leaves catalogue state none h read found zero_code =
      absurd (omega (arith, zero_code))
  revert_found-Leaves catalogue state (some fault) h read found zero_code =
      let (inside, same) = find_fault-In state.fault_id catalogue fault found in
      let (gone, live) =
        after_open-IsLive (revert environment format calls fault) fault (λ w. w) (revert-Good fault)
          h.world h.disk (connections.open_all h.world) refl zero_code in
      (fault, state, inside, read, same, gone, live)

  revert_from-Leaves :
      (catalogue : List Fault) (x : Result Raised (Option FaultState)) (h : Host W)
      → load format first_fails h.disk ≡ x
      → code_of
          (revert_from environment connections format calls first_fails interrupt catalogue x h).0
        ≡ 0
      → Leaves catalogue revert_fault h
          (revert_from environment connections format calls first_fails interrupt catalogue x h).1
  unfolding revert_from
  revert_from-Leaves catalogue (err e) h read zero_code =
      absurd (exit_of_error-failing interrupt e zero_code)
  revert_from-Leaves catalogue (ok none) h read zero_code =
      absurd (exit_of_error-failing interrupt fault_state_error zero_code)
  revert_from-Leaves catalogue (ok (some state)) h read zero_code =
      revert_found-Leaves catalogue state (find_fault state.fault_id catalogue) h read refl
        zero_code

  dry_run-same :
      (found : Option Fault) (h : Host W)
      → (run_found environment connections format calls first_fails interrupt found true h).1 ≡ h
  unfolding run_found
  dry_run-same none h = refl
  dry_run-same (some fault) h = refl

  -- When the program exits with 0, `run <fault_id>` without `--dry-run` has opened the connections,
  -- and in the end closed them and left no state file, and in between, after the injection of the
  -- catalogue's fault of that id, every revert step returned and the check that followed found the
  -- symptom gone; `revert` has done the same, without an injection, for the fault that the state
  -- file names; and the other commands have changed nothing.
  pub main_zero :
      (reload : Option Raised) (catalogue : List Fault) (command : Command) (h : Host W)
      → (main environment connections format calls first_fails interrupt reload catalogue command
          h).0
        ≡ code 0
      → Leaves catalogue command h
          (main environment connections format calls first_fails interrupt reload catalogue command
            h).1
  unfolding main run_found
  main_zero none catalogue list_faults h zero_code = refl
  main_zero (some e) catalogue list_faults h zero_code = absurd (cc)
  main_zero reload catalogue revert_fault h zero_code =
      revert_from-Leaves catalogue (load format first_fails h.disk) h refl (ap code_of zero_code)
  main_zero reload catalogue (show_symptom id) h zero_code = refl
  main_zero reload catalogue (run_fault id true) h zero_code =
      dry_run-same (find_fault id catalogue) h
  main_zero reload catalogue (run_fault id false) h zero_code =
      run_found-Leaves catalogue id (find_fault id catalogue) h refl (ap code_of zero_code)
