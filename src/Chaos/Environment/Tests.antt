-- ===== src/Chaos/Environment/Tests.antt =====
-- A broker with one topic, a fault that disables it, and the theorems applied at them.
use swarmscope.Base.{
  ℕ, ◌≡◌, ◌↔◌, refl, sym, ap, ◌∙◌, inl, inr, false, Option, none, some, List, [], ◌∷◌, Text, null,
  codes, same_text, same_text_refl, same_text-eq, if◌then◌else◌, Bool-cases, Result, ok, err,
  ok_inj, All, In,
}
use swarmscope.Chaos.Catalogue.{topic_status, active, disabled, http_check, Fault, validate_fault}
use swarmscope.Chaos.Catalogue.Load.{FaultFile, load_catalogue, load_file, model_validate}
use swarmscope.Chaos.State.{
  FaultState, Raised, exception, Format, removes, load, record_state, clear,
}
use swarmscope.Chaos.Runner.{Calls, Host, run, inject_fault, recover, apply_all}
use swarmscope.Chaos.Cli.{code, Connections, close_all, run_fault, main, find_fault, report}
use swarmscope.Chaos.Environment.{
  member, status_value, Properties, Services, fault_environment, apply_step, detect,
}
use swarmscope.Chaos.Environment.ReadBack.{IsApplied, apply_step_iff}
use swarmscope.Chaos.Environment.Restored.{
  Entity, topic_entity, subscription_entity, same_entity, IsFaithful, after_steps, apply_all_sets,
}
use swarmscope.Chaos.Environment.Recovered.{IsUp, main_run_leaves_active}

abbrev orders : Text
orders = codes "orders"

-- The surroundings are the status of the one topic.
abbrev seen : Entity → Text → Option Text
seen (topic_entity t) w = if same_text t orders then some w else none
seen (subscription_entity t n) w = none

abbrev or_old : Option Text → Text → Text
or_old none w = w
or_old (some t) w = t

abbrev topic : Text → Text → Properties
topic t w = record { name = t; status = some (member w); others = null }

abbrev get_topic : Text → Text → Result Raised Properties × Text
get_topic t w = (if same_text t orders then ok (topic t w) else err (exception 1), w)

abbrev update_topic : Properties → Text → Result Raised (Unit {0}) × Text
update_topic p w = (ok tt, if same_text p.name orders then or_old (status_value p.status) w else w)

abbrev services : Services Text ℕ
services = record {
  sql_scalar = λ q w. (ok 0, w);
  greater = λ x t. false;
  less = λ x t. false;
  print_float = λ x. x ∷ [];
  request = λ m p b w. (ok (if same_text w (codes "Active") then 202 else 503), w);
  print_code = λ n. n ∷ [];
  get_topic = get_topic;
  update_topic = update_topic;
  get_subscription = λ t n w. (err (exception 1), w);
  update_subscription = λ t p w. (ok tt, w);
  command_runner = λ c w. (ok tt, w);
  compose_file = codes "compose.yaml";
  sleep = λ n w. (ok tt, w);
}

get_topic-true :
    (t w : Text) (p : Properties) (w' : Text)
    → get_topic t w ≡ (ok p, w')
    → (status_value p.status ≡ seen (topic_entity t) w') × (p.name ≡ t)
unfolding status_value
get_topic-true t w p w' h = elim (Bool-cases (same_text t orders)) [
  | inl hit ↦
      let h' = rw hit at h in
      let read : topic t w ≡ p = ok_inj (ap (λ x. x.0) h') in
      let there : w ≡ w' = ap (λ x. x.1) h' in rw (hit, ← read, ← there) (refl, refl)
  | inr miss ↦ absurd (let h' = ap (λ x. x.0) (rw miss at h) in cc)
]

update_topic-others :
    (e : Entity) (p : Properties) (w : Text)
    → same_entity e (topic_entity p.name) ≡ false
    → seen e (update_topic p w).1 ≡ seen e w
update_topic-others (subscription_entity t n) p w other = refl
update_topic-others (topic_entity t) p w other = elim (Bool-cases (same_text t orders)) [
  | inr miss ↦ rw miss refl
  | inl hit ↦ elim (Bool-cases (same_text p.name orders)) [
    | inr apart ↦ rw apart refl
    | inl both ↦ absurd (
        let same = same_text-eq t orders hit ∙ sym (same_text-eq p.name orders both) in
        let yes = same_text_refl p.name in let no = rw same at other in cc)
  ]
]

services-IsFaithful : IsFaithful services seen
services-IsFaithful = record {
  topic_true = get_topic-true;
  subscription_true = λ t n w p w' h. absurd (let h' = ap (λ x. x.0) h in cc);
  topic_read = λ e t w. refl;
  subscription_read = λ e t n w. refl;
  topic_update = update_topic-others;
  subscription_update = λ e t p w other. refl;
  commands = λ e c w. refl;
  queries = λ e q w. refl;
  requests = λ e m p b w. refl;
}

abbrev fault : Fault
fault = record {
  id = codes "topic-off";
  title = codes "Nothing arrives";
  symptom = codes "Orders are accepted and nothing follows";
  settle_seconds = 5;
  inject = topic_status orders disabled ∷ [];
  revert = topic_status orders active ∷ [];
  detects = http_check (codes "POST") (codes "/orders") none 500 (codes "orders fail");
  ground_truth = record {
    summary = codes "disabled";
    surface = codes "broker-send";
    evidence = codes "status" ∷ [];
    forbidden_in_symptom = codes "topic" ∷ [];
  };
}

abbrev encode : FaultState → List ℕ
encode s = s.injection_started_at ∷ s.fault_id

abbrev decode : List ℕ → Option FaultState
decode [] = none
decode (n ∷ id) = some (record { fault_id = id; injection_started_at = n })

abbrev format : Format
format = record { dump_json = encode; validate_json = decode; round_trip = λ s h. refl }

abbrev calls : Calls
calls = record {
  started_at = 100;
  load_fails = false;
  record_trouble = none;
  clear_load_fails = false;
  removal = removes;
}

abbrev healthy : Host Text
healthy = record { world = codes "Active"; disk = record { target = none; temporary = none } }

activated :
    apply_step services (topic_status orders active) (codes "Disabled") ≡ (ok tt, codes "Active")
unfolding apply_step
activated = refl

apply_step_iff_example :
    (apply_step services (topic_status orders active) (codes "Disabled") ≡ (ok tt, codes "Active"))
    ↔ IsApplied services (topic_status orders active) (codes "Disabled") (codes "Active")
apply_step_iff_example =
    apply_step_iff services (topic_status orders active) (codes "Disabled") (codes "Active")

both_applied :
    apply_all
      (fault_environment services)
      (topic_status orders disabled ∷ topic_status orders active ∷ [])
      (codes "Active")
    ≡ (ok tt, codes "Active")
unfolding apply_all apply_step
both_applied = refl

apply_all_sets_example :
    seen (topic_entity orders) (codes "Active")
    ≡ after_steps
        (topic_status orders disabled ∷ topic_status orders active ∷ [])
        (topic_entity orders)
        (seen (topic_entity orders) (codes "Active"))
apply_all_sets_example =
    apply_all_sets services seen services-IsFaithful
      (topic_status orders disabled ∷ topic_status orders active ∷ []) (topic_entity orders)
      (codes "Active") (codes "Active") both_applied

-- Every file reads as the one fault.
abbrev read_fault : Text → Option Fault
read_fault text = some fault

abbrev directory : List FaultFile
directory = record { stem = codes "topic-off"; text = [] } ∷ []

loaded : load_catalogue (λ t. t) read_fault directory ≡ ok (fault ∷ [])
unfolding load_catalogue load_file model_validate validate_fault
loaded = refl

abbrev nothing : Text → Result Raised (Unit {0}) × Text
nothing w = (ok tt, w)

abbrev connections : Connections Text
connections = record {
  open_all = nothing;
  close_http_client = nothing;
  close_administration = nothing;
  close_credential = nothing;
  dispose_engine = nothing;
}

closing_alone : (e : Entity) (w : Text) → seen e (close_all connections w).1 ≡ seen e w
unfolding close_all
closing_alone e w = refl

run-exits :
    (main
      (fault_environment services)
      connections
      format
      calls
      false
      1
      none
      (fault ∷ [])
      (run_fault fault.id false)
      healthy).0
    ≡ code 0
unfolding main find_fault report run load record_state inject_fault apply_all recover clear detect
    apply_step
run-exits = refl

main_run_leaves_active_example :
    (f : Fault) × In f (fault ∷ [])
    × (f.id ≡ fault.id)
    × All
        (IsUp (λ e.
          seen e
            (main
              (fault_environment services)
              connections
              format
              calls
              false
              1
              none
              (fault ∷ [])
              (run_fault fault.id false)
              healthy).1.world))
        f.inject
main_run_leaves_active_example =
    main_run_leaves_active services seen services-IsFaithful connections closing_alone format calls
      false 1 (λ t. t) read_fault directory (fault ∷ []) fault.id healthy none loaded (refl, tt)
      run-exits
