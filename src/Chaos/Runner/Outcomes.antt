-- ===== src/Chaos/Runner/Outcomes.antt =====
-- chaos/runner.py: a pending run's record, taken up by `revert`.
use swarmscope.Base.{
  and_true, same_text_refl, ◌≡◌, refl, sym, subst, true, false, not, ◌&&◌, Option, none, some, ok,
  holds,
}
use swarmscope.Chaos.Catalogue.{Fault, is_fault_id}
use swarmscope.Chaos.State.{FaultState, Format, Directory, load, parsed, clear, removes}
use swarmscope.Chaos.Runner.{
  DetectionResult, Environment, RecoveryReport, no_failures, verified, recovered, Calls, recover,
  Host, finish_successful_run, with_status, finish_observed, after_success, revert, clear_fault,
}
use swarmscope.Chaos.Runner.Recovery.{not-true}

module _ {W : Type 0} (environment : Environment W) (format : Format) (calls : Calls)
    (fault : Fault) (valid : is_fault_id fault.id ≡ true) where
  load-dumped :
      (s : FaultState) (d : Directory)
      → s.fault_id ≡ fault.id
      → d.target ≡ some (format.dump_json s)
      → load format false d ≡ ok (some s)
  unfolding load
  load-dumped s d same here =
      rw (here, format.round_trip s (subst (λ t. is_fault_id t ≡ true) (sym same) valid), parsed)
        refl

  clear-dumped :
      (s : FaultState) (d : Directory)
      → s.fault_id ≡ fault.id
      → d.target ≡ some (format.dump_json s)
      → calls.clear_load_fails ≡ false
      → calls.removal ≡ removes
      → clear_fault environment format calls fault d ≡ (ok tt, record d { target = none })
  unfolding clear
  clear-dumped s d same here reads unlinks =
      rw (reads, unlinks, load-dumped s d same here, same, same_text_refl fault.id) refl

  finish_observed_lem :
      (injected : Option DetectionResult) (report : RecoveryReport) (o : Option DetectionResult)
      (d : Directory) {d' : Directory}
      → (no_failures report.failures && holds (λ (r : DetectionResult). not r.matched) o) ≡ true
      → clear_fault environment format calls fault d ≡ (ok tt, d')
      → finish_observed environment format calls fault injected report o d
        ≡ (ok (with_status environment format calls fault recovered injected report), d')
  finish_observed_lem injected report none d good cleared =
      absurd (let bad = (and_true (no_failures report.failures) false good).1 in cc)
  finish_observed_lem injected report (some o) d good cleared =
      let (clean, gone) = and_true (no_failures report.failures) (not o.matched) good in
      rw (clean, not-true o.matched gone, cleared) refl

  -- For a fault with a well-formed id that the state file names, after a recovery that is verified,
  -- `revert` returns RECOVERED and removes the file, if the file's calls work.
  pub revert_completes :
      (s : FaultState) (h : Host W) {report : RecoveryReport} {w : W}
      → s.fault_id ≡ fault.id
      → h.disk.target ≡ some (format.dump_json s)
      → calls.load_fails ≡ false
      → calls.clear_load_fails ≡ false
      → calls.removal ≡ removes
      → recover environment fault h.world ≡ (ok report, w)
      → verified report ≡ true
      → revert environment format calls fault h ≡ (
        ok (with_status environment format calls fault recovered none report),
        record { world = w; disk = record h.disk { target = none } },
      )
  unfolding revert after_success finish_successful_run
  revert_completes s h {report} {w} same here loads reads unlinks back good =
      rw
        (
          loads,
          load-dumped s h.disk same here,
          back,
          same,
          same_text_refl fault.id,
          finish_observed_lem none report report.observation h.disk good
              (clear-dumped s h.disk same here reads unlinks),
        )
        refl
