-- ===== src/Chaos/Environment/ReadBack.antt =====
-- chaos/environment.py: what `FaultEnvironment.apply` has done when it returns.
use swarmscope.Base.{
  ◌≡◌, refl, sym, ap, ◌∙◌, [], ◌∷◌, subst, inl, inr, true, Option, none, some, Text, codes,
  same_text-eq, same_text_refl, ◌↔◌, Bool-cases, Result, ok, err,
}
use swarmscope.Chaos.Catalogue.{
  value_of, EntityStatus, active, disabled, send_disabled, receive_disabled, Step, compose_stop,
  compose_start, topic_status, subscription_status, same_option,
}
use swarmscope.Chaos.State.{Raised}
use swarmscope.Chaos.Environment.{
  member, status_value, Properties, Services, continue, set_status, demand_status, apply_step,
}

-- A call that continued and returned had returned itself.
pub continue-ok :
    {W A B : Type 0} (f : A → W → Result Raised B × W) (x : Result Raised A × W) {b : B} {w' : W}
    → continue f x ≡ (ok b, w')
    → (a : A) × (x ≡ (ok a, x.1)) × (f a x.1 ≡ (ok b, w'))
continue-ok f (ok a, w) h = (a, refl, h)
continue-ok f (err e, w) h = absurd (let h' = ap (λ p. p.0) h in cc)

same_option-eq : (s : Option Text) (t : Text) → same_option s (some t) ≡ true → s ≡ some t
same_option-eq none t h = absurd (cc)
same_option-eq (some s) t h = ap (λ x. some x) (same_text-eq s t h)

-- the SDK's value of a status, written out
abbrev pub written_status : EntityStatus → Text
written_status active = codes "Active"
written_status disabled = codes "Disabled"
written_status send_disabled = codes "SendDisabled"
written_status receive_disabled = codes "ReceiveDisabled"

pub value_of-written : (s : EntityStatus) → value_of s ≡ written_status s
value_of-written active = refl
value_of-written disabled = refl
value_of-written send_disabled = refl
value_of-written receive_disabled = refl

Properties-eq :
    {p q : Properties} → p.name ≡ q.name → p.status ≡ q.status → p.others ≡ q.others → p ≡ q
Properties-eq h k m = cc

module _ {W F : Type 0} (services : Services W F) where
  pub demand_status-ok :
      (expected : EntityStatus) (p : Properties) (w w' : W)
      → demand_status services expected p w ≡ (ok tt, w')
      → (status_value p.status ≡ some (value_of expected)) × (w ≡ w')
  unfolding demand_status
  demand_status-ok expected p w w' h =
      elim (Bool-cases (same_option (status_value p.status) (some (value_of expected)))) [
        | inl same ↦ (
          same_option-eq (status_value p.status) (value_of expected) same,
          ap (λ x. x.1) (rw same at h),
        )
        | inr other ↦ absurd (let h' = ap (λ x. x.0) (rw other at h) in cc)
      ]

  -- The three calls of a status step that returned: the read; the update, of the object that was
  -- read but for its status; and the read back, which found the expected status.
  pub record IsReadBack (get : W → Result Raised Properties × W)
      (update : Properties → W → Result Raised (Unit {0}) × W) (expected : EntityStatus) (w w' : W)
      : Type 0 where
    pub before : Properties
    pub written : Properties
    pub updated : Properties
    pub first : W
    pub second : W
    pub got : get w ≡ (ok before, first)
    pub same_name : written.name ≡ before.name
    pub same_others : written.others ≡ before.others
    pub changed : written.status ≡ some (member (written_status expected))
    pub set : update written first ≡ (ok tt, second)
    pub back : get second ≡ (ok updated, w')
    pub found : status_value updated.status ≡ some (written_status expected)

  module _ (get : W → Result Raised Properties × W)
      (update : Properties → W → Result Raised (Unit {0}) × W) (expected : EntityStatus) where
    -- the shape that the two status steps share
    abbrev pub setting : W → Result Raised (Unit {0}) × W
    setting w =
        continue
          (λ p w'.
            continue (λ _ w''. continue (demand_status services expected) (get w''))
              (update (set_status services expected p) w'))
          (get w)

    setting-IsReadBack : (w w' : W) → setting w ≡ (ok tt, w') → IsReadBack get update expected w w'
    setting-IsReadBack w w' h =
        let (p, got, rest) =
          continue-ok
            (λ p w'.
              continue (λ _ w''. continue (demand_status services expected) (get w''))
                (update (set_status services expected p) w'))
            (get w) h in
        let (_, set, rest') =
          continue-ok (λ _ w''. continue (demand_status services expected) (get w''))
            (update (set_status services expected p) (get w).1) rest in
        let second = (update (set_status services expected p) (get w).1).1 in
        let (updated, back, demanded) =
          continue-ok (demand_status services expected) (get second) rest' in
        let (found, there) = demand_status-ok expected updated (get second).1 w' demanded in
        record {
          before = p;
          written = set_status services expected p;
          updated = updated;
          first = (get w).1;
          second = second;
          got = got;
          same_name = refl;
          same_others = refl;
          changed = ap (λ x. some (member x)) (value_of-written expected);
          set = set;
          back = subst (λ x. get second ≡ (ok updated, x)) there back;
          found = found ∙ ap (λ x. some x) (value_of-written expected);
        }

    IsReadBack-setting : (w w' : W) → IsReadBack get update expected w w' → setting w ≡ (ok tt, w')
    unfolding demand_status
    IsReadBack-setting w w' h =
        let same =
          Properties-eq h.same_name
            (h.changed ∙ ap (λ x. some (member x)) (sym (value_of-written expected)))
            h.same_others in
        let set = subst (λ p. update p h.first ≡ (ok tt, h.second)) same h.set in
        let found = h.found ∙ ap (λ x. some x) (sym (value_of-written expected)) in
        rw (h.got, set, h.back, found, same_text_refl (value_of expected)) refl

  -- What a step that returned has done. The commands are written out.
  abbrev pub IsApplied : Step → W → W → Type 0
  IsApplied (compose_stop service) w w' =
      services.command_runner
        (codes "docker"
          ∷ codes "compose"
          ∷ codes "--project-name"
          ∷ codes "swarmscope"
          ∷ codes "--file"
          ∷ services.compose_file
          ∷ codes "stop"
          ∷ service
          ∷ [])
        w
      ≡ (ok tt, w')
  IsApplied (compose_start service) w w' =
      services.command_runner
        (codes "docker"
          ∷ codes "compose"
          ∷ codes "--project-name"
          ∷ codes "swarmscope"
          ∷ codes "--file"
          ∷ services.compose_file
          ∷ codes "start"
          ∷ service
          ∷ [])
        w
      ≡ (ok tt, w')
  IsApplied (topic_status topic status) w w' =
      IsReadBack (services.get_topic topic) services.update_topic status w w'
  IsApplied (subscription_status topic subscription status) w w' =
      IsReadBack (services.get_subscription topic subscription) (services.update_subscription topic)
        status w w'

  -- A step returns exactly when its `docker compose --project-name swarmscope` command with `stop`
  -- or `start` returns, or, for a topic or a subscription, when it is read, updated with the
  -- object that was read but for the step's status, and read back with that status.
  pub apply_step_iff :
      (s : Step) (w w' : W) → (apply_step services s w ≡ (ok tt, w')) ↔ IsApplied s w w'
  unfolding apply_step
  apply_step_iff (compose_stop service) w w' = (λ h. h, λ h. h)
  apply_step_iff (compose_start service) w w' = (λ h. h, λ h. h)
  apply_step_iff (topic_status topic status) w w' = (
    setting-IsReadBack (services.get_topic topic) services.update_topic status w w',
    IsReadBack-setting (services.get_topic topic) services.update_topic status w w',
  )
  apply_step_iff (subscription_status topic subscription status) w w' = (
    setting-IsReadBack (services.get_subscription topic subscription)
        (services.update_subscription topic) status w w',
    IsReadBack-setting (services.get_subscription topic subscription)
        (services.update_subscription topic) status w w',
  )
