-- ===== src/Chaos/Runner/Safety.antt =====
-- chaos/runner.py: the state file after `run` and `revert`.
use swarmscope.Base.{
  same_text, ◌≡◌, ◌≢◌, refl, sym, ap, ◌∙◌, subst, ◌⊎◌, inl, inr, Bool, true, not, ◌&&◌, Bool-cases,
  Option, none, some, Option-cases, Result, ok, err, ok_inj, holds,
}
use swarmscope.Chaos.Catalogue.{Fault}
use swarmscope.Chaos.State.{
  parsed, FaultState, Raised, recovery_required, Format, Directory, load, record_state,
}
use swarmscope.Chaos.State.Atomic.{record_state-IsWhole}
use swarmscope.Chaos.Runner.{
  DetectionResult, Environment, RecoveryReport, no_failures, verified, bare, Calls, inject_fault,
  recover, Host, finish_failed_run, finish_successful_run, finish_observed, after_failed,
  after_success, after_injection, after_record, after_before, after_load, run, revert_loaded,
  revert, new_state,
}
use swarmscope.Chaos.Runner.Recovery.{IsRecovered, recover-IsRecovered}

some_not_none : {A : Type 0} {o : Option A} {a : A} → o ≡ some a → o ≢ none
some_not_none e h = let both = sym e ∙ h in cc

load-some :
    (format : Format) (read_fails : Bool) (d : Directory)
    → d.target ≢ none
    → load format read_fails d ≢ ok none
unfolding load
load-some format read_fails d held h = elim (Bool-cases read_fails) [
  | inl broken ↦ let h' = rw broken at h in cc
  | inr works ↦ elim (Option-cases d.target) [
    | inl nothing ↦ held nothing
    | inr (payload, e) ↦ elim (Option-cases (format.validate_json payload)) [
      | inl invalid ↦ let h' = rw (works, e, invalid, parsed) at h in cc
      | inr (s, valid) ↦ let same = ok_inj (rw (works, e, valid, parsed) at h) in cc
    ]
  ]
]

module _ {W : Type 0} (environment : Environment W) (format : Format) (calls : Calls)
    (fault : Fault) where
  module _ (w : W) (d : Directory) (held : d.target ≢ none) where
    finish_observed-verified :
        (injected : Option DetectionResult) (report : RecoveryReport) (o : Option DetectionResult)
        → (finish_observed environment format calls fault injected report o d).1.target ≡ none
        → (no_failures report.failures && holds (λ (r : DetectionResult). not r.matched) o) ≡ true
    finish_observed-verified injected report none h = absurd (held h)
    finish_observed-verified injected report (some o) h =
        elim (Bool-cases (no_failures report.failures)) [
          | inr failing ↦ absurd (held (rw failing at h))
          | inl clean ↦ elim (Bool-cases o.matched) [
            | inl still ↦ absurd (held (rw (clean, still) at h))
            | inr gone ↦ rw (clean, gone) refl
          ]
        ]

    -- The failed run keeps its record unless its recovery was verified.
    after_failed-keeps :
        (error : Raised) (x : Result Raised RecoveryReport × W)
        → recover environment fault w ≡ x
        → (after_failed environment format calls fault error x d).1.disk.target ≡ none
        → IsRecovered environment fault w
            (after_failed environment format calls fault error x d).1.world
    unfolding after_failed finish_failed_run
    after_failed-keeps error (err e, w') found h = absurd (held h)
    after_failed-keeps error (ok report, w') found h = elim (Bool-cases (verified report)) [
      | inl good ↦
          subst (λ (v : W). IsRecovered environment fault w v) (ap (λ p. p.1) found)
            (recover-IsRecovered environment fault w (ap (λ p. p.0) found) good)
      | inr bad ↦ absurd (held (rw bad at h))
    ]

    after_success-keeps :
        (injected : Option DetectionResult) (x : Result Raised RecoveryReport × W)
        → recover environment fault w ≡ x
        → (after_success environment format calls fault injected x d).1.disk.target ≡ none
        → IsRecovered environment fault w
            (after_success environment format calls fault injected x d).1.world
    unfolding after_success finish_successful_run
    after_success-keeps injected (err e, w') found h = absurd (held h)
    after_success-keeps injected (ok report, w') found h =
        subst (λ (v : W). IsRecovered environment fault w v) (ap (λ p. p.1) found)
          (recover-IsRecovered environment fault w (ap (λ p. p.0) found)
            (finish_observed-verified injected report report.observation h))

  -- What became of a host whose state file is gone, from the world `w` on: nothing was injected, or
  -- the injection from there was followed by a recovery.
  abbrev pub IsSafe : W → Host W → Type 0
  IsSafe w h =
      h.disk.target ≡ none
      → (h.world ≡ w) ⊎ IsRecovered environment fault (inject_fault environment fault w).1 h.world

  after_injection-keeps :
      (x : Result Raised DetectionResult × W) (d : Directory)
      → d.target ≢ none
      → (after_injection environment format calls fault x d).1.disk.target ≡ none
      → IsRecovered environment fault x.1
          (after_injection environment format calls fault x d).1.world
  unfolding after_injection
  after_injection-keeps (err e, w) d held h =
      after_failed-keeps w d held e (recover environment fault w) refl h
  after_injection-keeps (ok injected, w) d held h =
      after_success-keeps w d held (some injected) (recover environment fault w) refl h

  after_record-IsSafe :
      (x : Result Raised (Unit {0}) × Directory) (w : W)
      → (x.0 ≡ ok tt → x.1.target ≢ none)
      → IsSafe w (after_record environment format calls fault x w).1
  unfolding after_record
  after_record-IsSafe (err e, d) w held h = inl refl
  after_record-IsSafe (ok _, d) w held h =
      inr (after_injection-keeps (inject_fault environment fault w) d (held refl) h)

  recorded :
      (d : Directory)
      → (record_state format calls.record_trouble (new_state environment format calls fault) d).0
        ≡ ok tt
      → (record_state format calls.record_trouble
          (new_state environment format calls fault)
          d).1.target
        ≢ none
  recorded d h =
      some_not_none
        ((record_state-IsWhole format calls.record_trouble
            (new_state environment format calls fault) d).1
          h).1

  after_before-IsSafe :
      (x : Result Raised DetectionResult × W) (d : Directory)
      → IsSafe x.1 (after_before environment format calls fault x d).1
  unfolding after_before
  after_before-IsSafe (err e, w) d h = inl refl
  after_before-IsSafe (ok before, w) d h = elim (Bool-cases before.matched) [
    | inl sick ↦ inl (rw sick refl)
    | inr healthy ↦ rw healthy (
        after_record-IsSafe
          (record_state format calls.record_trouble (new_state environment format calls fault) d) w
          (recorded d) (rw healthy at h))
  ]

  after_load-IsSafe :
      (x : Result Raised (Option FaultState)) (h : Host W)
      → ((after_load environment format calls fault x h).1.world ≡ h.world)
        ⊎ IsSafe
            (environment.detect fault.detects h.world).1
            (after_load environment format calls fault x h).1
  unfolding after_load
  after_load-IsSafe (err e) h = inl refl
  after_load-IsSafe (ok (some outstanding)) h = inl refl
  after_load-IsSafe (ok none) h =
      inr (after_before-IsSafe (environment.detect fault.detects h.world) h.disk)

  -- However `run` ends, without a state file after it either nothing was injected (the world is as
  -- before, or as the first check left it), or after the injection every revert step returned and
  -- the check that followed found the symptom gone.
  pub run_clears_safely :
      (h : Host W)
      → (run environment format calls fault h).1.disk.target ≡ none
      → ((run environment format calls fault h).1.world ≡ h.world)
        ⊎ ((run environment format calls fault h).1.world
            ≡ (environment.detect fault.detects h.world).1)
        ⊎ IsRecovered environment fault
            (inject_fault environment fault (environment.detect fault.detects h.world).1).1
            (run environment format calls fault h).1.world
  unfolding run
  run_clears_safely h none_left = elim (after_load-IsSafe (load format calls.load_fails h.disk) h) [
    | inl same ↦ inl same
    | inr safe ↦ inr (safe none_left)
  ]

  after_load-refuses :
      (x : Result Raised (Option FaultState)) (h : Host W)
      → x ≢ ok none
      → (e : Raised) × (after_load environment format calls fault x h ≡ (err (bare e), h))
  unfolding after_load
  after_load-refuses (err e) h some_state = (e, refl)
  after_load-refuses (ok (some outstanding)) h some_state = (recovery_required, refl)
  after_load-refuses (ok none) h some_state = absurd (some_state refl)

  -- With a state file, whatever it holds, `run` raises and changes nothing.
  pub run_refuses :
      (h : Host W)
      → h.disk.target ≢ none
      → (e : Raised) × (run environment format calls fault h ≡ (err (bare e), h))
  unfolding run
  run_refuses h held =
      after_load-refuses (load format calls.load_fails h.disk) h
        (load-some format calls.load_fails h.disk held)

  revert_loaded-keeps :
      (x : Result Raised (Option FaultState)) (h : Host W)
      → h.disk.target ≢ none
      → (revert_loaded environment format calls fault x h).1.disk.target ≡ none
      → IsRecovered environment fault h.world
          (revert_loaded environment format calls fault x h).1.world
  unfolding revert_loaded
  revert_loaded-keeps (err e) h held gone = absurd (held gone)
  revert_loaded-keeps (ok none) h held gone = absurd (held gone)
  revert_loaded-keeps (ok (some outstanding)) h held gone =
      elim (Bool-cases (same_text outstanding.fault_id fault.id)) [
        | inl mine ↦ rw mine (
            after_success-keeps h.world h.disk held none (recover environment fault h.world) refl
              (rw mine at gone))
        | inr other ↦ absurd (held (rw other at gone))
      ]

  -- When `revert` removes the state file, every revert step has returned and the check after them
  -- has found the symptom gone.
  pub revert_clears_safely :
      (h : Host W)
      → h.disk.target ≢ none
      → (revert environment format calls fault h).1.disk.target ≡ none
      → IsRecovered environment fault h.world (revert environment format calls fault h).1.world
  unfolding revert
  revert_clears_safely h held gone =
      revert_loaded-keeps (load format calls.load_fails h.disk) h held gone
