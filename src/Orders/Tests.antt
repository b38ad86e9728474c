-- ===== src/Orders/Tests.antt =====
-- Runs of the outbox code (apps/orders/outbox.py, apps/orders/publisher_worker.py) at concrete
-- rows, and the theorems applied at them.
use swarmscope.Base.{
  ℕ, ◌+◌, ◌*◌, ◌^◌, ◌≡◌, refl, Bool, true, false, none, some, List, [], ◌∷◌, null, arith, find_row,
  ok, commits, In, inl, update_where, ◌<◌, some_inj, ◌≢◌, ◌↔◌, ◌≤◌, ◌⊎◌, min,
}
use swarmscope.Orders.Models.{OutboxEvent, outbox_accepts, IsAdmitted}
use swarmscope.Orders.Backoff.{
  backoff_delay, second, default_base_backoff, default_max_backoff, default_lease_duration,
}
use swarmscope.Orders.Backoff.Bounds.{
  doubled, backoff_delay-doubled, backoff_delay_mono, backoff_delay_stalls,
}
use swarmscope.Runtime.{is_set}
use swarmscope.Orders.Outbox.Calls.{IsWellFormed, run_once-IsWellFormed}
use swarmscope.Orders.PublisherWorker.{
  LoopConfig, Round, LoopState, no_stats, returned, unfinished, default_idle_sleep,
  default_error_backoff, run_publisher_loop,
}
use swarmscope.Orders.PublisherWorker.Loop.{total, Accounts, loop_survives, loop_returns}
use swarmscope.Orders.Outbox.Database.{scanning, first_least}
use swarmscope.Orders.Outbox.{
  OutboxPublisher, Tx, Turn, World, ClaimedEvent, delivered, refused, interrupted, outbound_of,
  Delivery, mark_published, outcome_idle, outcome_failed, outcome_published, claim_next_event,
  run_once, due_event_statement,
}
use swarmscope.Orders.Outbox.Changes.{event_key}
use swarmscope.Orders.Outbox.Workers.{
  System, Step, claim, deliver, settle_published, crash, place, Reach, here, next, fresh, enter,
  claimed, sent, resting, phase_after_claim,
}
use swarmscope.Orders.Outbox.RunOnce.{Claims, run_once_publishes, run_once_retries}
use swarmscope.Orders.Outbox.Due.{IsDue}
use swarmscope.Orders.Outbox.Recovery.{Claimable, run_once-idle_iff, interrupted_recovers}
use swarmscope.Orders.Outbox.Workers.Soundness.{Reach-IsSound, fresh-IsSound}
use swarmscope.Orders.Outbox.Workers.Exclusion.{ReadsTime, lease_excludes, published_is_final}
use swarmscope.Orders.Outbox.Workers.Promises.{marked_was_accepted, accepted_was_placed}

-- attempts 1, 2, 9 and 10 of the defaults: one second, two, four minutes and a bit, five minutes
backoff_defaults :
    (backoff_delay 1 default_base_backoff default_max_backoff ≡ ok (1 * second))
    × (backoff_delay 2 default_base_backoff default_max_backoff ≡ ok (2 * second))
    × (backoff_delay 9 default_base_backoff default_max_backoff ≡ ok (256 * second))
    × (backoff_delay 10 default_base_backoff default_max_backoff ≡ ok (300 * second))
unfolding backoff_delay
backoff_defaults = (refl, refl, refl, refl)

backoff_delay-doubled_example :
    backoff_delay 4 default_base_backoff default_max_backoff
    ≡ ok (doubled default_base_backoff default_max_backoff 3)
backoff_delay-doubled_example =
    backoff_delay-doubled 3 default_base_backoff default_max_backoff (omega arith) (omega arith)

abbrev event : OutboxEvent
event = record {
  event_id = 7;
  order_id = 1;
  event_type = 79 ∷ [];
  event_version = 1;
  occurred_at = 90;
  correlation_id = 5;
  payload = null;
  published_at = none;
  publish_attempts = 0;
  next_attempt_at = 100;
  lease_owner = none;
  lease_expires_at = none;
  last_attempt_at = none;
  last_publish_error = none;
}

abbrev worker : OutboxPublisher
worker = record {
  owner = 3;
  lease_duration = default_lease_duration;
  base_backoff = default_base_backoff;
  max_backoff = default_max_backoff;
}

abbrev at_time : ℕ → Tx
at_time now = record { clock = some now; ending = commits }

abbrev unlocked : ℕ → Bool
unlocked _ = false

abbrev claim_of : ClaimedEvent
claim_of = record { event_id = 7; outbound = outbound_of event; attempts = 1 }

abbrev placed : System
placed = record fresh { outbox = event ∷ [] }

abbrev taken : System
taken = record placed {
  outbox = (claim_next_event scanning worker (at_time 200) unlocked placed.outbox).1;
  phase = enter 3 (claimed claim_of) placed.phase;
}

placed-Reach : Reach scanning fresh placed
unfolding outbox_accepts
placed-Reach = next worker here (place event refl refl refl)

taken-Reach : Reach scanning fresh taken
unfolding claim_next_event first_least
taken-Reach = next worker placed-Reach (claim (at_time 200) unlocked refl)

abbrev handed : System
handed = record taken {
  broker = outbound_of event ∷ [];
  phase = enter 3 (sent claim_of) taken.phase;
}

abbrev done : System
done = record handed {
  outbox = (mark_published worker (at_time 300) claim_of handed.outbox).1;
  phase = enter 3 resting handed.phase;
}

handed-Reach : Reach scanning fresh handed
handed-Reach = next worker taken-Reach (deliver claim_of delivered refl)

done-Reach : Reach scanning fresh done
done-Reach = next worker handed-Reach (settle_published claim_of (at_time 300) refl)

-- the row after its claim, and after its settlement
abbrev leased_event : OutboxEvent
leased_event = record event {
  publish_attempts = 1;
  lease_owner = some 3;
  lease_expires_at = some 30000200;
  last_attempt_at = some 200;
}

abbrev settled_event : OutboxEvent
settled_event = record event {
  published_at = some 300;
  publish_attempts = 1;
  last_attempt_at = some 200;
}

found_taken : find_row event_key 7 taken.outbox ≡ some leased_event
unfolding claim_next_event first_least find_row update_where
found_taken = refl

found_done : find_row event_key 7 done.outbox ≡ some settled_event
unfolding claim_next_event first_least find_row update_where mark_published
found_done = refl

marked_was_accepted_example : In (outbound_of settled_event) done.broker
marked_was_accepted_example = marked_was_accepted 7 300 settled_event done-Reach found_done refl

accepted_was_placed_example :
    (r : OutboxEvent) × (find_row event_key 7 done.outbox ≡ some r)
    × (outbound_of r ≡ outbound_of event)
    × IsAdmitted r
accepted_was_placed_example = accepted_was_placed (outbound_of event) done-Reach (inl refl)

abbrev rival : OutboxPublisher
rival = record worker { owner = 4 }

abbrev rival_claim : Step scanning rival taken (record taken {
  outbox = (claim_next_event scanning rival (at_time 400) unlocked taken.outbox).1;
  phase =
      enter 4
        (phase_after_claim (claim_next_event scanning rival (at_time 400) unlocked taken.outbox).0)
        taken.phase;
})
rival_claim = claim (at_time 400) unlocked refl

rival_is_early : (now : ℕ) → ReadsTime rival_claim now → now < 30000200
rival_is_early now e = omega (arith, some_inj e)

lease_excludes_example :
    find_row event_key 7 (claim_next_event scanning rival (at_time 400) unlocked taken.outbox).1
    ≡ some leased_event
lease_excludes_example =
    lease_excludes 7 3 30000200 leased_event rival_claim (Reach-IsSound fresh-IsSound taken-Reach)
      found_taken refl refl (omega arith) rival_is_early

published_is_final_example :
    find_row event_key 7 (record done { phase = enter 4 resting done.phase }).outbox
    ≡ some settled_event
published_is_final_example =
    published_is_final {engine = scanning} 7 300 settled_event
      (Reach-IsSound fresh-IsSound done-Reach) (next rival here crash) found_done refl

abbrev turn_of : Delivery → Turn
turn_of d = record {
  claim_tx = at_time 200;
  locked = unlocked;
  delivery = d;
  settle_tx = at_time 300;
}

abbrev world : World
world = record { outbox = event ∷ []; broker = [] }

event-Claims : (d : Delivery) → Claims scanning worker (turn_of d) world.outbox 200 event
unfolding first_least due_event_statement
event-Claims d = record { clock = refl; ending = refl; picked = refl; early = refl; room = refl }

run_once_publishes_example :
    let (result, after) = run_once scanning worker (turn_of delivered) world in
    (result ≡ ok (outcome_published claim_of))
    × (after.broker ≡ outbound_of event ∷ [])
    × (find_row event_key 7 after.outbox ≡ some settled_event)
    × ((k : ℕ) → k ≢ 7 → find_row event_key k after.outbox ≡ find_row event_key k world.outbox)
run_once_publishes_example =
    run_once_publishes scanning worker (turn_of delivered) world (refl, tt) (event-Claims delivered)
      refl (refl, refl)

abbrev retried_event : OutboxEvent
retried_event = record event {
  publish_attempts = 1;
  next_attempt_at = 1000300;
  last_attempt_at = some 200;
  last_publish_error = some (33 ∷ []);
}

abbrev refusal : Delivery
refusal = refused (33 ∷ []) true

run_once_retries_example :
    let (result, after) = run_once scanning worker (turn_of refusal) world in
    (result ≡ ok (outcome_failed claim_of (33 ∷ [])))
    × (find_row event_key 7 after.outbox ≡ some retried_event)
    × ((k : ℕ) → k ≢ 7 → find_row event_key k after.outbox ≡ find_row event_key k world.outbox)
unfolding backoff_delay
run_once_retries_example =
    run_once_retries scanning worker (turn_of refusal) world (refl, tt) (event-Claims refusal) refl
      refl (omega arith) refl (refl, refl)

interrupted_recovers_example :
    let rows = (run_once scanning worker (turn_of (interrupted true)) world).1.outbox in
    (r : OutboxEvent) × (find_row event_key 7 rows ≡ some r)
    × (outbound_of r ≡ outbound_of event)
    × (r.publish_attempts ≡ 1)
    × ((IsDue 30000200 unlocked r
          × Claimable scanning rival (at_time 30000200) unlocked 30000200 rows r)
        ↔ ((30000200 ≤ 30000200) × (false ≡ false)))
interrupted_recovers_example =
    interrupted_recovers scanning worker (turn_of (interrupted true)) world (refl, tt)
      (event-Claims (interrupted true)) refl rival (at_time 30000200) unlocked (omega arith) refl
      refl

-- at time 50 the row is not yet due
abbrev early_turn : Turn
early_turn = record (turn_of delivered) { claim_tx = at_time 50 }

run_once-idle_iff_example :
    ((run_once scanning worker early_turn world).0 ≡ ok outcome_idle
      → ((e : OutboxEvent) → In e world.outbox → ¬ IsDue 50 unlocked e))
    × (((e : OutboxEvent) → In e world.outbox → ¬ IsDue 50 unlocked e)
        → run_once scanning worker early_turn world ≡ (ok outcome_idle, world))
run_once-idle_iff_example = run_once-idle_iff scanning worker early_turn world refl refl

world-IsWellFormed : IsWellFormed world.outbox
unfolding outbox_accepts
world-IsWellFormed = record { keyed = (refl, tt); admitted = (refl, tt) }

run_once-IsWellFormed_example :
    IsWellFormed (run_once scanning worker (turn_of refusal) world).1.outbox
run_once-IsWellFormed_example =
    run_once-IsWellFormed scanning worker (turn_of refusal) world world-IsWellFormed

backoff_delay_mono_example : (min 5 7 ≤ 5) × (5 ≤ 7) × (7 ≤ 7)
unfolding backoff_delay
backoff_delay_mono_example = backoff_delay_mono 1 3 5 7 (omega arith) refl refl

backoff_delay_stalls_example : (1 * 2 ^ 16 ≡ 1 * 2 ^ 16) × (1 * 2 ^ 16 < 100000)
unfolding backoff_delay
backoff_delay_stalls_example = backoff_delay_stalls 40 1 100000 (omega arith) (omega arith) refl

-- The loop: a publication, then an idle round that the shutdown request at 1000 cuts short.
abbrev config : LoopConfig
config = record {
  shutdown = some 1000;
  idle_sleep = default_idle_sleep;
  error_backoff = default_error_backoff;
}

abbrev rounds : List Round
rounds =
    record { turn = turn_of delivered; takes = 600 }
    ∷ record { turn = turn_of delivered; takes = 600 }
    ∷ []

abbrev start : LoopState
start = record { stats = no_stats; world = world; time = 0 }

loop_survives_example :
    (s' : LoopState) × (((run_publisher_loop scanning worker config rounds start ≡ returned s')
        × (is_set config.shutdown s'.time ≡ true))
      ⊎ ((run_publisher_loop scanning worker config rounds start ≡ unfinished s')
          × (total s'.stats ≡ 0 + 2)
          × (is_set config.shutdown s'.time ≡ false)))
    × Accounts 2 start s'
loop_survives_example = loop_survives scanning worker config rounds start (refl, (refl, tt))

abbrev short_config : LoopConfig
short_config = record config { shutdown = some 1 }

loop_returns_example :
    (s' : LoopState) × (run_publisher_loop scanning worker short_config rounds start ≡ returned s')
    × (1 ≤ s'.time)
    × (s'.time ≤ 1 + 600)
loop_returns_example =
    loop_returns scanning worker short_config 1 600 rounds start refl
      ((refl, omega arith, omega arith), ((refl, omega arith, omega arith), tt)) (omega arith)
      (omega arith)
