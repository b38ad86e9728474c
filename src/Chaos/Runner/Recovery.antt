-- ===== src/Chaos/Runner/Recovery.antt =====
-- chaos/runner.py: what a true report of `_recover` says.
use swarmscope.Base.{
  and_true, ◌≡◌, ◌≢◌, refl, sym, ap, subst, inl, inr, Bool, true, false, not, ◌&&◌, Bool-cases,
  none, List, [], ◌∷◌, Result, ok, err, ok_inj,
}
use swarmscope.Chaos.Catalogue.{Step, Fault}
use swarmscope.Chaos.State.{Raised, is_exception}
use swarmscope.Chaos.Runner.{
  DetectionResult, Environment, RevertFailure, step_failed, check_failed, append_failure,
  RecoveryReport, no_failures, verified, apply_all, revert_steps, recover, then_rest, then_revert,
  with_failure, after_check, after_revert,
}

pub not-true : (b : Bool) → not b ≡ true → b ≡ false
not-true false h = refl
not-true true h = absurd (cc)

unseen :
    (f : RevertFailure) (fs : List RevertFailure)
    → verified (record { observation = none; failures = append_failure f fs }) ≢ true
unseen f [] h = absurd (cc)
unseen f (g ∷ gs) h = absurd (cc)

-- A list that a failure was put on is not free of failures.
with_failure-noted :
    {W : Type 0} (f : RevertFailure) (r : Result Raised (List RevertFailure) × W)
    {fs : List RevertFailure} {w' : W}
    → with_failure f r ≡ (ok fs, w')
    → no_failures fs ≢ true
with_failure-noted f (ok gs, w) h clean = absurd (let same = ok_inj (ap (λ p. p.0) h) in cc)
with_failure-noted f (err e, w) h clean = absurd (let same = ap (λ p. p.0) h in cc)

-- The rest of a step of `_recover` ends without failures only if the step returned.
then-clean :
    {W : Type 0} (s : Step) (x : Result Raised (Unit {0}) × W)
    (rest : Result Raised (List RevertFailure) × W) (all : Result Raised (Unit {0}) × W)
    → ((fs : List RevertFailure) (w' : W)
        → rest ≡ (ok fs, w')
        → no_failures fs ≡ true
        → all ≡ (ok tt, w'))
    → {fs : List RevertFailure} {w' : W} → then_revert s x rest ≡ (ok fs, w')
    → no_failures fs ≡ true
    → then_rest x all ≡ (ok tt, w')
then-clean s (ok _, w) rest all same h clean = same _ _ h clean
then-clean s (err e, w) rest all same h clean = elim (Bool-cases (is_exception e)) [
  | inl caught ↦ absurd (with_failure-noted (step_failed s e) rest (rw caught at h) clean)
  | inr escapes ↦ absurd (let h' = ap (λ p. p.0) (rw escapes at h) in cc)
]

module _ {W : Type 0} (environment : Environment W) where
  -- A loop without failures has applied every step.
  revert_steps-clean :
      (steps : List Step) (w : W) {fs : List RevertFailure} {w' : W}
      → revert_steps environment steps w ≡ (ok fs, w')
      → no_failures fs ≡ true
      → apply_all environment steps w ≡ (ok tt, w')
  unfolding revert_steps apply_all
  revert_steps-clean [] w h clean = ap (λ p. (ok tt, p.1)) h
  revert_steps-clean (s ∷ steps) w h clean =
      then-clean s (environment.apply_step s w)
        (revert_steps environment steps (environment.apply_step s w).1)
        (apply_all environment steps (environment.apply_step s w).1)
        (λ fs w'. revert_steps-clean steps (environment.apply_step s w).1) h clean

  -- From `w` every revert step was applied and returned, and the check after them, which leaves
  -- `w'`, found the symptom gone.
  pub record IsRecovered (fault : Fault) (w w' : W) : Type 0 where
    pub middle : W
    pub applied : apply_all environment fault.revert w ≡ (ok tt, middle)
    pub observation : DetectionResult
    pub observed : environment.detect fault.detects middle ≡ (ok observation, w')
    pub gone : observation.matched ≡ false

  module _ (fault : Fault) (w : W) where
    after_check-IsRecovered :
        (middle : W) (failures : List RevertFailure)
        → (no_failures failures ≡ true → apply_all environment fault.revert w ≡ (ok tt, middle))
        → (x : Result Raised DetectionResult × W) → environment.detect fault.detects middle ≡ x
        → {report : RecoveryReport} → (after_check failures x).0 ≡ ok report
        → verified report ≡ true
        → IsRecovered fault w (after_check failures x).1
    after_check-IsRecovered middle failures applied (ok d, w') seen {report} h good =
        let fine : (no_failures failures && not d.matched) ≡ true =
          subst (λ (r : RecoveryReport). verified r ≡ true) (sym (ok_inj h)) good in
        record {
          middle = middle;
          applied = applied (and_true _ _ fine).0;
          observation = d;
          observed = seen;
          gone = not-true d.matched (and_true (no_failures failures) _ fine).1;
        }
    after_check-IsRecovered middle failures applied (err e, w') seen {report} h good =
        elim (Bool-cases (is_exception e)) [
          | inr escapes ↦ absurd (let h' = rw escapes at h in cc)
          | inl caught ↦ absurd (
              unseen (check_failed e) failures (
                subst (λ (r : RecoveryReport). verified r ≡ true) (sym (ok_inj (rw caught at h)))
                  good))
        ]

    after_revert-IsRecovered :
        (x : Result Raised (List RevertFailure) × W)
        → revert_steps environment fault.revert w ≡ x
        → {report : RecoveryReport} → (after_revert environment fault x).0 ≡ ok report
        → verified report ≡ true
        → IsRecovered fault w (after_revert environment fault x).1
    after_revert-IsRecovered (ok fs, middle) stepped h good =
        after_check-IsRecovered middle fs (revert_steps-clean fault.revert w stepped)
          (environment.detect fault.detects middle) refl h good
    after_revert-IsRecovered (err e, middle) stepped h good = absurd (cc)

    -- A report that is verified is true.
    pub recover-IsRecovered :
        {report : RecoveryReport}
        → (recover environment fault w).0 ≡ ok report
        → verified report ≡ true
        → IsRecovered fault w (recover environment fault w).1
    unfolding recover
    recover-IsRecovered h good =
        after_revert-IsRecovered (revert_steps environment fault.revert w) refl h good
