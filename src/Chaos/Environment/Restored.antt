-- ===== src/Chaos/Environment/Restored.antt =====
-- chaos/environment.py: on a broker whose reads are true and whose updates change one entity, the
-- statuses that a list of steps leaves.
use swarmscope.Base.{
  ◌≡◌, refl, sym, ap, ◌∙◌, inl, inr, Bool, true, false, ◌&&◌, Option, some, List, [], ◌∷◌, Text,
  Json, codes, same_text, same_text-eq, Bool-cases, Result, ok, err, if◌then◌else◌, and_true,
}
use swarmscope.Chaos.Catalogue.{
  value_of, EntityStatus, Step, compose_stop, compose_start, topic_status, subscription_status,
  Check, sql_check, http_check,
}
use swarmscope.Chaos.State.{Raised}
use swarmscope.Chaos.Runner.{apply_all, then_rest}
use swarmscope.Chaos.Environment.{
  status_value, Properties, Services, continue, detect, compose, apply_step, fault_environment,
}
use swarmscope.Chaos.Environment.ReadBack.{IsReadBack, IsApplied, apply_step_iff, value_of-written}

pub data Entity : Type 0 where
  topic_entity : Text → Entity
  subscription_entity : Text → Text → Entity

abbrev pub same_entity : Entity → Entity → Bool
same_entity (topic_entity s) (topic_entity t) = same_text s t
same_entity (subscription_entity s n) (subscription_entity t m) = same_text s t && same_text n m
same_entity _ _ = false

-- What the broker does, given the status of each entity in each state of the surroundings: a read
-- is true and changes nothing, an update changes its own entity only, and nothing else changes any.
pub record IsFaithful {W F : Type 0} (services : Services W F) (seen : Entity → W → Option Text)
    : Type 0 where
  pub topic_true :
      (t : Text) (w : W) (p : Properties) (w' : W)
      → services.get_topic t w ≡ (ok p, w')
      → (status_value p.status ≡ seen (topic_entity t) w') × (p.name ≡ t)
  pub subscription_true :
      (t n : Text) (w : W) (p : Properties) (w' : W)
      → services.get_subscription t n w ≡ (ok p, w')
      → (status_value p.status ≡ seen (subscription_entity t n) w') × (p.name ≡ n)
  pub topic_read : (e : Entity) (t : Text) (w : W) → seen e (services.get_topic t w).1 ≡ seen e w
  pub subscription_read :
      (e : Entity) (t n : Text) (w : W) → seen e (services.get_subscription t n w).1 ≡ seen e w
  pub topic_update :
      (e : Entity) (p : Properties) (w : W)
      → same_entity e (topic_entity p.name) ≡ false
      → seen e (services.update_topic p w).1 ≡ seen e w
  pub subscription_update :
      (e : Entity) (t : Text) (p : Properties) (w : W)
      → same_entity e (subscription_entity t p.name) ≡ false
      → seen e (services.update_subscription t p w).1 ≡ seen e w
  pub commands :
      (e : Entity) (c : List Text) (w : W) → seen e (services.command_runner c w).1 ≡ seen e w
  pub queries : (e : Entity) (q : Text) (w : W) → seen e (services.sql_scalar q w).1 ≡ seen e w
  pub requests :
      (e : Entity) (method path : Text) (body : Option Json) (w : W)
      → seen e (services.request method path body w).1 ≡ seen e w

-- the status that a step leaves
abbrev pub after_step : Step → Entity → Option Text → Option Text
after_step (topic_status t s) e old =
    if same_entity e (topic_entity t) then some (value_of s) else old
after_step (subscription_status t n s) e old =
    if same_entity e (subscription_entity t n) then some (value_of s) else old
after_step _ e old = old

abbrev pub after_steps : List Step → Entity → Option Text → Option Text
after_steps [] e old = old
after_steps (s ∷ steps) e old = after_steps steps e (after_step s e old)

same_entity-eq : (e f : Entity) → same_entity e f ≡ true → e ≡ f
same_entity-eq (topic_entity s) (topic_entity t) h = ap (λ x. topic_entity x) (same_text-eq s t h)
same_entity-eq (subscription_entity s n) (subscription_entity t m) h =
    let (first, rest) = and_true (same_text s t) (same_text n m) h in
    rw (same_text-eq s t first, same_text-eq n m rest) refl
same_entity-eq (topic_entity s) (subscription_entity t m) h = absurd (cc)
same_entity-eq (subscription_entity s n) (topic_entity t) h = absurd (cc)

then_rest-ok :
    {W : Type 0} (x rest : Result Raised (Unit {0}) × W) {w' : W}
    → then_rest x rest ≡ (ok tt, w')
    → (x ≡ (ok tt, x.1)) × (rest ≡ (ok tt, w'))
then_rest-ok (ok _, w) rest h = (refl, h)
then_rest-ok (err e, w) rest h = absurd (let h' = ap (λ p. p.0) h in cc)

-- What follows a call by a value alone leaves the surroundings where the call left them.
continue-end :
    {W A B : Type 0} {S : Type 0} (f : A → Result Raised B) (x : Result Raised A × W) (g : W → S)
    → g (continue (λ a w. (f a, w)) x).1 ≡ g x.1
continue-end f (ok a, w) g = refl
continue-end f (err e, w) g = refl

module _ {W F : Type 0} (services : Services W F) (seen : Entity → W → Option Text)
    (faithful : IsFaithful services seen) where
  -- one setting of one entity
  setting-seen :
      (target e : Entity) (get : W → Result Raised Properties × W)
      (update : Properties → W → Result Raised (Unit {0}) × W) (expected : EntityStatus) (w w' : W)
      → ((v : W) (p : Properties) (v' : W)
          → get v ≡ (ok p, v')
          → status_value p.status ≡ seen target v')
      → ((v : W) → seen e (get v).1 ≡ seen e v)
      → ((v : W) (p q : Properties) (v' : W)
          → get v ≡ (ok p, v')
          → q.name ≡ p.name
          → same_entity e target ≡ false
          → seen e (update q v').1 ≡ seen e v')
      → IsReadBack services get update expected w w'
      → seen e w' ≡ (if same_entity e target then some (value_of expected) else seen e w)
  setting-seen target e get update expected w w' true_read keeps others h =
      elim (Bool-cases (same_entity e target)) [
        | inl same ↦ rw same (
            rw (same_entity-eq e target same) (
              sym (true_read h.second h.updated w' h.back)
              ∙ h.found
              ∙ ap (λ x. some x) (sym (value_of-written expected))))
        | inr other ↦
            let read_back = ap (λ x. seen e x.1) (sym h.back) ∙ keeps h.second in
            let updated =
              ap (λ x. seen e x.1) (sym h.set)
              ∙ others w h.before h.written h.first h.got h.same_name other in
            let read_first = ap (λ x. seen e x.1) (sym h.got) ∙ keeps w in
            rw other (read_back ∙ updated ∙ read_first)
      ]

  topic_others :
      (e : Entity) (t : Text) (v : W) (p q : Properties) (v' : W)
      → services.get_topic t v ≡ (ok p, v')
      → q.name ≡ p.name
      → same_entity e (topic_entity t) ≡ false
      → seen e (services.update_topic q v').1 ≡ seen e v'
  topic_others e t v p q v' got same other =
      faithful.topic_update e q v' (rw (same ∙ (faithful.topic_true t v p v' got).1) other)

  subscription_others :
      (e : Entity) (t n : Text) (v : W) (p q : Properties) (v' : W)
      → services.get_subscription t n v ≡ (ok p, v')
      → q.name ≡ p.name
      → same_entity e (subscription_entity t n) ≡ false
      → seen e (services.update_subscription t q v').1 ≡ seen e v'
  subscription_others e t n v p q v' got same other =
      faithful.subscription_update e t q v'
        (rw (same ∙ (faithful.subscription_true t n v p v' got).1) other)

  IsApplied-seen :
      (s : Step) (e : Entity) (w w' : W)
      → IsApplied services s w w'
      → seen e w' ≡ after_step s e (seen e w)
  IsApplied-seen (compose_stop service) e w w' h =
      ap (λ x. seen e x.1) (sym h) ∙ faithful.commands e (compose services (codes "stop") service) w
  IsApplied-seen (compose_start service) e w w' h =
      ap (λ x. seen e x.1) (sym h)
      ∙ faithful.commands e (compose services (codes "start") service) w
  IsApplied-seen (topic_status t s) e w w' h =
      setting-seen (topic_entity t) e (services.get_topic t) services.update_topic s w w'
        (λ v p v' got. (faithful.topic_true t v p v' got).0) (faithful.topic_read e t)
        (topic_others e t) h
  IsApplied-seen (subscription_status t n s) e w w' h =
      setting-seen (subscription_entity t n) e (services.get_subscription t n)
        (services.update_subscription t) s w w'
        (λ v p v' got. (faithful.subscription_true t n v p v' got).0)
        (faithful.subscription_read e t n) (subscription_others e t n) h

  -- When all steps of a list return, each topic and each subscription has the status that the last
  -- step about it names, and the one it had where no step names it.
  pub apply_all_sets :
      (steps : List Step) (e : Entity) (w w' : W)
      → apply_all (fault_environment services) steps w ≡ (ok tt, w')
      → seen e w' ≡ after_steps steps e (seen e w)
  unfolding apply_all
  apply_all_sets [] e w w' h = ap (λ x. seen e x.1) (sym h)
  apply_all_sets (s ∷ steps) e w w' h =
      let (first, rest) =
        then_rest-ok (apply_step services s w)
          (apply_all (fault_environment services) steps (apply_step services s w).1) h in
      apply_all_sets steps e (apply_step services s w).1 w' rest
      ∙ ap (after_steps steps e) (
          IsApplied-seen s e w (apply_step services s w).1
            ((apply_step_iff services s w (apply_step services s w).1).0 first))

  -- A check changes no status.
  pub detect-seen : (c : Check) (e : Entity) (w : W) → seen e (detect services c w).1 ≡ seen e w
  unfolding detect
  detect-seen (sql_check query comparison threshold describe) e w =
      continue-end _ (services.sql_scalar query w) (λ v. seen e v) ∙ faithful.queries e query w
  detect-seen (http_check method path body status_at_least describe) e w =
      continue-end _ (services.request method path body w) (λ v. seen e v)
      ∙ faithful.requests e method path body w
