-- ===== src/Chaos/Runner/Status.antt =====
-- What a result of chaos/runner.py says of the state file.
use swarmscope.Base.{
  same_text, ℕ, ◌≡◌, ◌≢◌, refl, ap, subst, inl, inr, true, Bool-cases, Option, none, some, List,
  Text, Result, ok, err, ok_inj,
}
use swarmscope.Chaos.Catalogue.{Fault}
use swarmscope.Chaos.State.{
  FaultState, Raised, Format, Directory, load, record_state, clear, clear_loaded, Removal, removes,
  vanishes, removal_fails, sync_fails, unlink_target,
}
use swarmscope.Chaos.State.Atomic.{record_state-IsWhole}
use swarmscope.Chaos.Runner.{
  DetectionResult, Environment, RecoveryReport, no_failures, verified, FaultRunResult, recovered,
  recovery_pending, Calls, inject_fault, recover, Host, finish_observed, with_status, after_clear,
  finish_successful_run, after_success, after_failed, after_injection, after_record, after_before,
  after_load, run, new_state, clear_fault,
}
use swarmscope.Chaos.Runner.Recovery.{IsRecovered, recover-IsRecovered}

unlink_target-gone :
    (r : Removal) (d : Directory)
    → (unlink_target r d).0 ≡ ok tt
    → (unlink_target r d).1.target ≡ none
unfolding unlink_target
unlink_target-gone removes d h = refl
unlink_target-gone vanishes d h = absurd (cc)
unlink_target-gone removal_fails d h = absurd (cc)
unlink_target-gone sync_fails d h = absurd (cc)

module _ (format : Format) where
  clear_loaded-gone :
      (r : Removal) (expected : Text) (x : Result Raised (Option FaultState)) (d : Directory)
      → (clear_loaded format r expected x d).0 ≡ ok tt
      → (clear_loaded format r expected x d).1.target ≡ none
  unfolding clear_loaded
  clear_loaded-gone r expected (err e) d h = absurd (cc)
  clear_loaded-gone r expected (ok none) d h = absurd (cc)
  clear_loaded-gone r expected (ok (some current)) d h =
      elim (Bool-cases (same_text current.fault_id expected)) [
        | inl mine ↦ rw mine (unlink_target-gone r d (rw mine at h))
        | inr other ↦ absurd (let h' = rw other at h in cc)
      ]

module _ {W : Type 0} (environment : Environment W) (format : Format) (calls : Calls)
    (fault : Fault) where
  clear_fault-gone :
      (d : Directory)
      → (clear_fault environment format calls fault d).0 ≡ ok tt
      → (clear_fault environment format calls fault d).1.target ≡ none
  unfolding clear
  clear_fault-gone d h =
      clear_loaded-gone format calls.removal fault.id (load format calls.clear_load_fails d) d h

  -- What a result says of the directory after it, where `payload` was recorded.
  pub record Reports (payload : List ℕ) (result : FaultRunResult) (d : Directory) : Type 0 where
    pub same_fault : result.fault_id ≡ fault.id
    pub cleared : result.status ≡ recovered → d.target ≡ none
    pub healthy : result.status ≡ recovered → verified result.recovery ≡ true
    pub kept : result.status ≡ recovery_pending → d.target ≡ some payload

  module _ (payload : List ℕ) (injected : Option DetectionResult) (report : RecoveryReport) where
    after_clear-Reports :
        (x : Result Raised (Unit {0}) × Directory)
        → (x.0 ≡ ok tt → x.1.target ≡ none)
        → verified report ≡ true
        → {result : FaultRunResult}
        → (after_clear environment format calls fault
            (with_status environment format calls fault recovered injected report)
            x).0
          ≡ ok result
        → Reports payload result
            (after_clear environment format calls fault
              (with_status environment format calls fault recovered injected report)
              x).1
          × (result.recovery ≡ report)
    after_clear-Reports (err e, d) gone good h = absurd (cc)
    after_clear-Reports (ok _, d) gone good {result} h =
        subst (λ (r : FaultRunResult). Reports payload r d × (r.recovery ≡ report)) (ok_inj h)
          (
            record {
              same_fault = refl;
              cleared = λ s. gone refl;
              healthy = λ s. good;
              kept = λ s. absurd (cc);
            },
            refl,
          )

    finish_observed-Reports :
        (o : Option DetectionResult) (d : Directory)
        → report.observation ≡ o
        → d.target ≡ some payload
        → {result : FaultRunResult}
        → (finish_observed environment format calls fault injected report o d).0 ≡ ok result
        → Reports payload result
            (finish_observed environment format calls fault injected report o d).1
          × (result.recovery ≡ report)
    finish_observed-Reports none d seen held h = absurd (cc)
    finish_observed-Reports (some o) d seen held {result} h =
        elim (Bool-cases (no_failures report.failures)) [
          | inr failing ↦ absurd (let h' = rw failing at h in cc)
          | inl clean ↦ elim (Bool-cases o.matched) [
            | inl still ↦
                rw (clean, still)
                  (subst (λ (r : FaultRunResult). Reports payload r d × (r.recovery ≡ report))
                    (ok_inj (rw (clean, still) at h))
                    (
                      record {
                        same_fault = refl;
                        cleared = λ s. absurd (cc);
                        healthy = λ s. absurd (cc);
                        kept = λ s. held;
                      },
                      refl,
                    ))
            | inr gone ↦
                rw (clean, gone)
                  (after_clear-Reports (clear_fault environment format calls fault d)
                    (clear_fault-gone d) (rw (clean, seen, gone) refl) (rw (clean, gone) at h))
          ]
        ]

  -- What a run that returns says of the host after it, where `w` is the world in which the
  -- recovery began.
  pub record IsReported (payload : List ℕ) (w : W) (result : FaultRunResult) (h : Host W)
      : Type 0 where
    pub same_fault : result.fault_id ≡ fault.id
    pub cleared : result.status ≡ recovered → h.disk.target ≡ none
    pub healthy : result.status ≡ recovered → IsRecovered environment fault w h.world
    pub kept : result.status ≡ recovery_pending → h.disk.target ≡ some payload

  module _ (payload : List ℕ) where
    -- A result after a recovery that was attempted says what it left.
    pub after_success-IsReported :
        (w : W) (d : Directory) (injected : Option DetectionResult)
        (x : Result Raised RecoveryReport × W)
        → recover environment fault w ≡ x
        → d.target ≡ some payload
        → {result : FaultRunResult}
        → (after_success environment format calls fault injected x d).0 ≡ ok result
        → IsReported payload w result (after_success environment format calls fault injected x d).1
    unfolding after_success finish_successful_run
    after_success-IsReported w d injected (err e, w') found held h = absurd (cc)
    after_success-IsReported w d injected (ok report, w') found held {result} h =
        let (reports, same) =
          finish_observed-Reports payload injected report report.observation d refl held h in
        record {
          same_fault = reports.same_fault;
          cleared = reports.cleared;
          healthy = λ s.
              subst (λ (v : W). IsRecovered environment fault w v) (ap (λ p. p.1) found)
                (recover-IsRecovered environment fault w (ap (λ p. p.0) found)
                  (subst (λ (r : RecoveryReport). verified r ≡ true) same (reports.healthy s)));
          kept = reports.kept;
        }

    after_failed-raises :
        (error : Raised) (x : Result Raised RecoveryReport × W) (d : Directory)
        {result : FaultRunResult}
        → (after_failed environment format calls fault error x d).0 ≢ ok result
    unfolding after_failed
    after_failed-raises error (err e, w) d h = cc
    after_failed-raises error (ok report, w) d h = cc

    after_injection-IsReported :
        (x : Result Raised DetectionResult × W) (d : Directory)
        → d.target ≡ some payload
        → {result : FaultRunResult}
        → (after_injection environment format calls fault x d).0 ≡ ok result
        → IsReported payload x.1 result (after_injection environment format calls fault x d).1
    unfolding after_injection
    after_injection-IsReported (err e, w) d held h =
        absurd (after_failed-raises e (recover environment fault w) d h)
    after_injection-IsReported (ok injected, w) d held h =
        after_success-IsReported w d (some injected) (recover environment fault w) refl held h

    after_record-IsReported :
        (x : Result Raised (Unit {0}) × Directory) (w : W)
        → (x.0 ≡ ok tt → x.1.target ≡ some payload)
        → {result : FaultRunResult}
        → (after_record environment format calls fault x w).0 ≡ ok result
        → IsReported payload
            (inject_fault environment fault w).1
            result
            (after_record environment format calls fault x w).1
    unfolding after_record
    after_record-IsReported (err e, d) w held h = absurd (cc)
    after_record-IsReported (ok _, d) w held h =
        after_injection-IsReported (inject_fault environment fault w) d (held refl) h

  -- the payload that `run` records
  abbrev pub recorded_payload : List ℕ
  recorded_payload = format.dump_json (new_state environment format calls fault)

  after_before-IsReported :
      (x : Result Raised DetectionResult × W) (d : Directory) {result : FaultRunResult}
      → (after_before environment format calls fault x d).0 ≡ ok result
      → IsReported recorded_payload
          (inject_fault environment fault x.1).1
          result
          (after_before environment format calls fault x d).1
  unfolding after_before
  after_before-IsReported (err e, w) d h = absurd (cc)
  after_before-IsReported (ok before, w) d h = elim (Bool-cases before.matched) [
    | inl sick ↦ absurd (let h' = rw sick at h in cc)
    | inr healthy ↦ rw healthy (
        after_record-IsReported recorded_payload
          (record_state format calls.record_trouble (new_state environment format calls fault) d) w
          (λ r.
            ((record_state-IsWhole format calls.record_trouble
                (new_state environment format calls fault) d).1
              r).1)
          (rw healthy at h))
  ]

  after_load-IsReported :
      (x : Result Raised (Option FaultState)) (h : Host W) {result : FaultRunResult}
      → (after_load environment format calls fault x h).0 ≡ ok result
      → IsReported recorded_payload
          (inject_fault environment fault (environment.detect fault.detects h.world).1).1
          result
          (after_load environment format calls fault x h).1
  unfolding after_load
  after_load-IsReported (err e) h r = absurd (cc)
  after_load-IsReported (ok (some outstanding)) h r = absurd (cc)
  after_load-IsReported (ok none) h r =
      after_before-IsReported (environment.detect fault.detects h.world) h.disk r

  -- When `run` returns, its result names the fault; RECOVERED means that the state file is gone and
  -- that, after the injection, every revert step returned and the check that followed found the
  -- symptom gone; RECOVERY_PENDING means that the file holds the record of this run.
  pub run_reports :
      (h : Host W) {result : FaultRunResult}
      → (run environment format calls fault h).0 ≡ ok result
      → IsReported recorded_payload
          (inject_fault environment fault (environment.detect fault.detects h.world).1).1
          result
          (run environment format calls fault h).1
  unfolding run
  run_reports h r = after_load-IsReported (load format calls.load_fails h.disk) h r
