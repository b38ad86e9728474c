-- ===== src/Chaos/Environment/Recovered.antt =====
-- chaos/__main__.py with the environment of chaos/environment.py: the statuses, at the end of a
-- fault run that exits with 0, of the topics and subscriptions that its injection changes. Only a
-- faithful broker is considered, and revert lists that set no status but Active.
use swarmscope.Base.{
  All-map, ℕ, ◌≡◌, ok, refl, sym, ap, ◌∙◌, inl, inr, Bool, true, false, ◌||◌, Option, some, List,
  [], ◌∷◌, Text, codes, same_text_refl, holds, is_none, all, All, In, All-In, and_true,
  if◌then◌else◌,
}
use swarmscope.Chaos.Catalogue.{
  active, disabled, send_disabled, receive_disabled, is_active, Step, compose_stop, compose_start,
  topic_status, subscription_status, status_of, Fault, revert_restores,
}
use swarmscope.Chaos.Catalogue.Restores.{Undone, revert_restores_iff}
use swarmscope.Chaos.Catalogue.Load.{FaultFile, load_catalogue, IsChecked, load_catalogue-IsChecked}
use swarmscope.Chaos.State.{Format, Raised}
use swarmscope.Chaos.Runner.{Calls, Host}
use swarmscope.Chaos.Runner.Recovery.{IsRecovered}
use swarmscope.Chaos.Cli.{code, Connections, close_all, run_fault, main}
use swarmscope.Chaos.Cli.Zero.{main_zero}
use swarmscope.Chaos.Environment.{Services, fault_environment}
use swarmscope.Chaos.Environment.Restored.{
  Entity, topic_entity, subscription_entity, same_entity, IsFaithful, after_step, after_steps,
  apply_all_sets, detect-seen,
}

abbrev is_on : Step → Bool
is_on s = is_none (status_of s) || holds is_active (status_of s)

-- no step sets a status other than Active
abbrev pub only_activates : List Step → Bool
only_activates steps = all is_on steps

abbrev up : Option Text
up = some (codes "Active")

-- The entity of an injected step that does not activate it is seen as active.
abbrev pub IsUp : (Entity → Option Text) → Step → Type 0
IsUp seen (topic_status t s) = is_active s ≡ false → seen (topic_entity t) ≡ some (codes "Active")
IsUp seen (subscription_status t n s) =
    is_active s ≡ false → seen (subscription_entity t n) ≡ some (codes "Active")
IsUp seen _ = Unit

if-same : {A : Type 0} (b : Bool) (a : A) → (if b then a else a) ≡ a
if-same true a = refl
if-same false a = refl

after_step-up : (s : Step) (e : Entity) → is_on s ≡ true → after_step s e up ≡ up
after_step-up (compose_stop service) e on = refl
after_step-up (compose_start service) e on = refl
after_step-up (topic_status t active) e on = if-same (same_entity e (topic_entity t)) up
after_step-up (topic_status t disabled) e on = absurd (cc)
after_step-up (topic_status t send_disabled) e on = absurd (cc)
after_step-up (topic_status t receive_disabled) e on = absurd (cc)
after_step-up (subscription_status t n active) e on =
    if-same (same_entity e (subscription_entity t n)) up
after_step-up (subscription_status t n disabled) e on = absurd (cc)
after_step-up (subscription_status t n send_disabled) e on = absurd (cc)
after_step-up (subscription_status t n receive_disabled) e on = absurd (cc)

after_steps-up :
    (steps : List Step) (e : Entity) → only_activates steps ≡ true → after_steps steps e up ≡ up
after_steps-up [] e on = refl
after_steps-up (s ∷ steps) e on =
    let (first, rest) = and_true (is_on s) (only_activates steps) on in
    rw (after_step-up s e first) (after_steps-up steps e rest)

-- A list with a step that activates `e`, and none that sets another status, leaves it active.
after_steps-In :
    (s : Step) (e : Entity)
    → ((old : Option Text) → after_step s e old ≡ up)
    → (steps : List Step) (old : Option Text) → only_activates steps ≡ true
    → In s steps
    → after_steps steps e old ≡ up
after_steps-In s e sets [] old on at = elim at [ ]
after_steps-In s e sets (r ∷ steps) old on (inl same) =
    rw (← same, sets old) (after_steps-up steps e (and_true (is_on r) (only_activates steps) on).1)
after_steps-In s e sets (r ∷ steps) old on (inr at) =
    after_steps-In s e sets steps (after_step r e old)
      (and_true (is_on r) (only_activates steps) on).1 at

same_entity_refl : (e : Entity) → same_entity e e ≡ true
same_entity_refl (topic_entity t) = same_text_refl t
same_entity_refl (subscription_entity t n) = rw (same_text_refl t, same_text_refl n) refl

module _ (revert : List Step) (on : only_activates revert ≡ true)
    (before : Entity → Option Text) where
  Undone-IsUp : (s : Step) → Undone revert s → IsUp (λ e. after_steps revert e (before e)) s
  Undone-IsUp (compose_stop service) undone = tt
  Undone-IsUp (compose_start service) undone = tt
  Undone-IsUp (topic_status t s) undone = λ off.
      after_steps-In (topic_status t active) (topic_entity t)
        (λ old. rw (same_entity_refl (topic_entity t)) refl) revert (before (topic_entity t)) on
        (undone off)
  Undone-IsUp (subscription_status t n s) undone = λ off.
      after_steps-In (subscription_status t n active) (subscription_entity t n)
        (λ old. rw (same_entity_refl (subscription_entity t n)) refl) revert
        (before (subscription_entity t n)) on (undone off)

IsUp-same :
    (f g : Entity → Option Text) → ((e : Entity) → f e ≡ g e) → (s : Step) → IsUp g s → IsUp f s
IsUp-same f g same (compose_stop service) h = tt
IsUp-same f g same (compose_start service) h = tt
IsUp-same f g same (topic_status t s) h = λ off. same (topic_entity t) ∙ h off
IsUp-same f g same (subscription_status t n s) h = λ off. same (subscription_entity t n) ∙ h off

-- What the validator asks of a fault, with a revert list that only activates.
abbrev pub IsReversible : Fault → Type 0
IsReversible fault = (revert_restores fault ≡ true) × (only_activates fault.revert ≡ true)

module _ {W F : Type 0} (services : Services W F) (seen : Entity → W → Option Text)
    (faithful : IsFaithful services seen) where
  -- A recovered fault leaves every entity active that its injection may have disabled.
  pub IsRecovered-IsUp :
      (fault : Fault) (w w' : W)
      → IsReversible fault
      → IsRecovered (fault_environment services) fault w w'
      → All (IsUp (λ e. seen e w')) fault.inject
  IsRecovered-IsUp fault w w' (restores, on) done =
      All-map (Undone fault.revert) (IsUp (λ e. seen e w')) fault.inject
        (λ s undone.
          IsUp-same (λ e. seen e w') (λ e. after_steps fault.revert e (seen e w))
            (λ e.
              ap (λ x. seen e x.1) (sym done.observed)
              ∙ detect-seen services seen faithful fault.detects e done.middle
              ∙ apply_all_sets services seen faithful fault.revert e w done.middle done.applied)
            s (Undone-IsUp fault.revert on (λ e. seen e w) s undone))
        ((revert_restores_iff fault).0 restores)

  -- When `run <fault_id>` without `--dry-run` exits with 0 on a faithful broker, where closing the
  -- connections changes no status, and the catalogue was loaded and no revert list of it sets a
  -- status but Active, then the fault of that id is in the catalogue, and each topic and
  -- subscription that its injection sets to another status is Active at the end.
  pub main_run_leaves_active :
      (connections : Connections W)
      → ((e : Entity) (w : W) → seen e (close_all connections w).1 ≡ seen e w)
      → (format : Format) (calls : Calls) (first_fails : Bool) (interrupt : ℕ) (lower : Text → Text)
        (read_fault : Text → Option Fault) (directory : List FaultFile) (catalogue : List Fault)
        (id : Text) (h : Host W) (reload : Option Raised)
      → load_catalogue lower read_fault directory ≡ ok catalogue
      → All (λ (f : Fault). only_activates f.revert ≡ true) catalogue
      → (main
          (fault_environment services)
          connections
          format
          calls
          first_fails
          interrupt
          reload
          catalogue
          (run_fault id false)
          h).0
        ≡ code 0
      → (fault : Fault) × In fault catalogue
        × (fault.id ≡ id)
        × All
            (IsUp (λ e.
              seen e
                (main
                  (fault_environment services)
                  connections
                  format
                  calls
                  first_fails
                  interrupt
                  reload
                  catalogue
                  (run_fault id false)
                  h).1.world))
            fault.inject
  main_run_leaves_active connections closes_alone format calls first_fails interrupt lower
        read_fault directory catalogue id h reload loaded on zero_code =
      let (fault, inside, same, gone, live) =
        main_zero (fault_environment services) connections format calls first_fails interrupt reload
          catalogue (run_fault id false) h zero_code in
      (
        fault,
        inside,
        same,
        All-map _ _ fault.inject
            (IsUp-same _ (λ e. seen e live.done)
              (λ e. ap (λ x. seen e x.1) (sym live.closes) ∙ closes_alone e live.done))
            (IsRecovered-IsUp fault _ live.done
              (
                All-In (IsChecked lower read_fault) fault catalogue
                    (load_catalogue-IsChecked lower read_fault directory catalogue loaded) inside,
                All-In (λ (f : Fault). only_activates f.revert ≡ true) fault catalogue on inside,
              )
              live.recovers),
      )
