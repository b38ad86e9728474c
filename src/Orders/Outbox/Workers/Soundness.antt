-- ===== src/Orders/Outbox/Workers/Soundness.antt =====
-- What holds after any interleaving of publishers over the outbox of apps/orders/outbox.py.
use swarmscope.Base.{
  ℕ, ◌≡◌, refl, sym, ap, ◌∙◌, subst, ◌⊎◌, inl, inr, Bool, true, false, Option, none, some, List, [],
  ◌∷◌, In, All, All-update_where, All-update_In, IsKeyed, has_key, arith, Bool-cases, Result, ok,
  err, some_inj, ◌==◌,
}
use swarmscope.Orders.Models.{OutboxEvent, IsAdmitted}
use swarmscope.Orders.Messaging.{OutboundEvent}
use swarmscope.Orders.Outbox.Database.{Engine}
use swarmscope.Orders.Outbox.{
  OutboxPublisher, Outbox, Tx, ClaimedEvent, Delivery, delivered, refused, interrupted, accept,
  outbound_of, lease_row, publish_row, retry_row, claim_next_event, OutboxError,
}
use swarmscope.Orders.Outbox.Changes.{
  Change, unchanged, leased, marked, retried, event_key, claim_next_event-Change,
  mark_published-Change, release_for_retry-Change,
}
use swarmscope.Orders.Outbox.Admission.{Change-IsKeyed, Change-IsAdmitted}
use swarmscope.Orders.Outbox.Content.{
  carried, carried_of_In, carried-id, carried-cons, Change-carried, claim-carried,
}
use swarmscope.Orders.Outbox.Workers.{
  Phase, resting, claimed, sent, failing, System, enter, phase_after_claim, phase_after_delivery,
  Step, claim, deliver, settle_published, settle_failed, crash, place, Reach, here, next, fresh,
}

-- A row that is marked as published has its event, unaltered, among the accepted messages.
abbrev pub IsCovered : List OutboundEvent → OutboxEvent → Type 0
IsCovered broker e = (e.published_at ≡ none) ⊎ In (outbound_of e) broker

-- An accepted message is the event of a row.
abbrev pub IsGenuine : Outbox → OutboundEvent → Type 0
IsGenuine rows m = carried m.event_id rows ≡ some m

-- What a process holds between its steps.
abbrev pub Held : List OutboundEvent → Outbox → Phase → Type 0
Held broker rows resting = Unit
Held broker rows (claimed c) = carried c.event_id rows ≡ some c.outbound
Held broker rows (sent c) = (carried c.event_id rows ≡ some c.outbound) × In c.outbound broker
Held broker rows (failing c _) = carried c.event_id rows ≡ some c.outbound

pub record IsSound (s : System) : Type 0 where
  pub keyed : IsKeyed event_key s.outbox
  pub admitted : All IsAdmitted s.outbox
  pub genuine : All (IsGenuine s.outbox) s.broker
  pub covered : All (IsCovered s.broker) s.outbox
  pub held : (w : ℕ) → Held s.broker s.outbox (s.phase w)

module _ {read may : ℕ → Type 0} {self : OutboxPublisher} {rows rows' : Outbox} where
  -- A change that marks only accepted events leaves every marked row covered.
  Change-IsCovered :
      (broker : List OutboundEvent)
      → ((k : ℕ) (e : OutboxEvent) → may k → In e rows → e.event_id ≡ k → In (outbound_of e) broker)
      → Change read may self rows rows'
      → All (IsCovered broker) rows
      → All (IsCovered broker) rows'
  unfolding lease_row publish_row retry_row
  Change-IsCovered broker accepted (unchanged e) h = rw e h
  Change-IsCovered broker accepted (leased now locked r _ t e) h =
      rw e (All-update_where (IsCovered broker) _ _ rows (λ x _ c. c) h)
  Change-IsCovered broker accepted (marked now k m e) h = rw e (
      All-update_In event_key (IsCovered broker) _ _ rows
        (λ x inside mine _. inr (accepted k x m inside (ground arith))) h)
  Change-IsCovered broker accepted (retried later k error _ e) h =
      rw e (All-update_where (IsCovered broker) _ _ rows (λ x _ c. c) h)

  Change-IsGenuine :
      (broker : List OutboundEvent)
      → Change read may self rows rows'
      → All (IsGenuine rows) broker
      → All (IsGenuine rows') broker
  Change-IsGenuine [] ch h = tt
  Change-IsGenuine (m ∷ broker) ch h =
      (Change-carried m.event_id ch ∙ h.0, Change-IsGenuine broker ch h.1)

  Change-Held :
      (broker : List OutboundEvent) (p : Phase)
      → Change read may self rows rows'
      → Held broker rows p
      → Held broker rows' p
  Change-Held broker resting ch h = tt
  Change-Held broker (claimed c) ch h = Change-carried c.event_id ch ∙ h
  Change-Held broker (sent c) ch h = (Change-carried c.event_id ch ∙ h.0, h.1)
  Change-Held broker (failing c _) ch h = Change-carried c.event_id ch ∙ h

-- An accepted message stays accepted, whatever a later delivery does.
accept-grows :
    (d : Delivery) (m : OutboundEvent) (broker : List OutboundEvent) (x : OutboundEvent)
    → In x broker
    → In x (accept d m broker)
accept-grows delivered m broker x h = inr h
accept-grows (refused _ true) m broker x h = inr h
accept-grows (refused _ false) m broker x h = h
accept-grows (interrupted true) m broker x h = inr h
accept-grows (interrupted false) m broker x h = h

accept-All :
    (P : OutboundEvent → Type 0) (d : Delivery) (m : OutboundEvent) (broker : List OutboundEvent)
    → P m
    → All P broker
    → All P (accept d m broker)
accept-All P delivered m broker p h = (p, h)
accept-All P (refused _ true) m broker p h = (p, h)
accept-All P (refused _ false) m broker p h = h
accept-All P (interrupted true) m broker p h = (p, h)
accept-All P (interrupted false) m broker p h = h

-- a bigger topic covers and holds what a smaller one did
IsCovered-grows :
    (broker broker' : List OutboundEvent) (rows : Outbox)
    → ((x : OutboundEvent) → In x broker → In x broker')
    → All (IsCovered broker) rows
    → All (IsCovered broker') rows
IsCovered-grows broker broker' [] grow h = tt
IsCovered-grows broker broker' (e ∷ rows) grow (inl fresh_row, h) =
    (inl fresh_row, IsCovered-grows broker broker' rows grow h)
IsCovered-grows broker broker' (e ∷ rows) grow (inr m, h) =
    (inr (grow _ m), IsCovered-grows broker broker' rows grow h)

Held-grows :
    (broker broker' : List OutboundEvent) (rows : Outbox) (p : Phase)
    → ((x : OutboundEvent) → In x broker → In x broker')
    → Held broker rows p
    → Held broker' rows p
Held-grows broker broker' rows resting grow h = tt
Held-grows broker broker' rows (claimed c) grow h = h
Held-grows broker broker' rows (sent c) grow h = (h.0, grow _ h.1)
Held-grows broker broker' rows (failing c _) grow h = h

Held-enter :
    (broker : List OutboundEvent) (rows : Outbox) (w : ℕ) (p : Phase) (phases : ℕ → Phase)
    → Held broker rows p
    → ((v : ℕ) → Held broker rows (phases v))
    → (v : ℕ) → Held broker rows (enter w p phases v)
Held-enter broker rows w p phases hp h v = elim (Bool-cases (v == w)) [
  | inl mine ↦ rw mine hp
  | inr other ↦ rw other (h v)
]

-- A change of the table and of one process's phase keeps the system sound.
IsSound-Change :
    {read may : ℕ → Type 0} {self : OutboxPublisher} (s : System) (rows' : Outbox) (p : Phase)
    → ((k : ℕ) (e : OutboxEvent)
        → may k
        → In e s.outbox
        → e.event_id ≡ k
        → In (outbound_of e) s.broker)
    → Change read may self s.outbox rows'
    → Held s.broker rows' p
    → IsSound s
    → IsSound (record s { outbox = rows'; phase = enter self.owner p s.phase })
IsSound-Change {self = self} s rows' p accepted ch hp sound = record {
  keyed = Change-IsKeyed ch sound.keyed;
  admitted = Change-IsAdmitted ch sound.keyed sound.admitted;
  genuine = Change-IsGenuine s.broker ch sound.genuine;
  covered = Change-IsCovered s.broker accepted ch sound.covered;
  held =
      Held-enter s.broker rows' self.owner p s.phase hp
        (λ v. Change-Held s.broker (s.phase v) ch (sound.held v));
}

-- what a process holds, by the phase that it is in
Held-in : (s : System) (w : ℕ) {p : Phase} → IsSound s → s.phase w ≡ p → Held s.broker s.outbox p
Held-in s w sound e = subst (Held s.broker s.outbox) e (sound.held w)

Held-phase_after_delivery :
    (broker : List OutboundEvent) (rows : Outbox) (c : ClaimedEvent) (d : Delivery)
    → carried c.event_id rows ≡ some c.outbound
    → Held (accept d c.outbound broker) rows (phase_after_delivery d c)
Held-phase_after_delivery broker rows c delivered mine = (mine, inl refl)
Held-phase_after_delivery broker rows c (refused _ _) mine = mine
Held-phase_after_delivery broker rows c (interrupted _) mine = tt

-- The row of an event that was sent has its event among the accepted messages.
sent-accepted :
    (s : System) (c : ClaimedEvent)
    → IsSound s
    → Held s.broker s.outbox (sent c)
    → (k : ℕ) (e : OutboxEvent) → k ≡ c.event_id
    → In e s.outbox
    → e.event_id ≡ k
    → In (outbound_of e) s.broker
sent-accepted s c sound h k e ke inside ek =
    let same : outbound_of e ≡ c.outbound = some_inj (
      sym (carried_of_In e s.outbox sound.keyed inside)
      ∙ ap (λ j. carried j s.outbox) (ek ∙ ke)
      ∙ h.0) in
    subst (λ m. In m s.broker) (sym same) h.1

-- A committed order adds a row, and hides none.
place-IsSound :
    (s : System) (e : OutboxEvent)
    → IsAdmitted e
    → e.published_at ≡ none
    → has_key event_key e.event_id s.outbox ≡ false
    → IsSound s
    → IsSound (record s { outbox = e ∷ s.outbox })
place-IsSound s e fine unsent new_key sound = record {
  keyed = (new_key, sound.keyed);
  admitted = (fine, sound.admitted);
  genuine = genuine-cons s.broker sound.genuine;
  covered = (inl unsent, sound.covered);
  held = λ w. held-cons (s.phase w) (sound.held w);
}
  where
    genuine-cons :
        (broker : List OutboundEvent)
        → All (IsGenuine s.outbox) broker
        → All (IsGenuine (e ∷ s.outbox)) broker
    genuine-cons [] h = tt
    genuine-cons (m ∷ broker) h =
        (carried-cons m.event_id e s.outbox new_key h.0, genuine-cons broker h.1)

    held-cons : (p : Phase) → Held s.broker s.outbox p → Held s.broker (e ∷ s.outbox) p
    held-cons resting h = tt
    held-cons (claimed c) h = carried-cons c.event_id e s.outbox new_key h
    held-cons (sent c) h = (carried-cons c.event_id e s.outbox new_key h.0, h.1)
    held-cons (failing c _) h = carried-cons c.event_id e s.outbox new_key h

module _ (engine : Engine) (self : OutboxPublisher) (s : System) where
  -- A fresh claim holds its row's event, also when the row has just been leased.
  Held-phase_after_claim :
      (tx : Tx) (locked : ℕ → Bool)
      → IsSound s
      → Held s.broker
          (claim_next_event engine self tx locked s.outbox).1
          (phase_after_claim (claim_next_event engine self tx locked s.outbox).0)
  Held-phase_after_claim tx locked sound =
      go (claim_next_event engine self tx locked s.outbox).0 refl
    where
      go :
          (r : Result OutboxError (Option ClaimedEvent))
          → (claim_next_event engine self tx locked s.outbox).0 ≡ r
          → Held s.broker (claim_next_event engine self tx locked s.outbox).1 (phase_after_claim r)
      go (err e) h = tt
      go (ok none) h = tt
      go (ok (some c)) h =
          Change-carried c.event_id
            (claim_next_event-Change (λ _. ⊥) self tx s.outbox engine locked)
          ∙ claim-carried self s.outbox sound.keyed engine tx locked h

  deliver-IsSound :
      (c : ClaimedEvent) (d : Delivery)
      → s.phase self.owner ≡ claimed c
      → IsSound s
      → IsSound (record s {
        broker = accept d c.outbound s.broker;
        phase = enter self.owner (phase_after_delivery d c) s.phase;
      })
  deliver-IsSound c d e sound =
      let broker' : List OutboundEvent = accept d c.outbound s.broker in
      let grow : (x : OutboundEvent) → In x s.broker → In x broker' =
        accept-grows d c.outbound s.broker in
      let mine : carried c.event_id s.outbox ≡ some c.outbound = Held-in s self.owner sound e in
      record {
        keyed = sound.keyed;
        admitted = sound.admitted;
        genuine =
            accept-All (IsGenuine s.outbox) d c.outbound s.broker
              (ap (λ k. carried k s.outbox) (carried-id c.event_id s.outbox mine) ∙ mine)
              sound.genuine;
        covered = IsCovered-grows s.broker broker' s.outbox grow sound.covered;
        held =
            Held-enter broker' s.outbox self.owner (phase_after_delivery d c) s.phase
              (Held-phase_after_delivery s.broker s.outbox c d mine)
              (λ v. Held-grows s.broker broker' s.outbox (s.phase v) grow (sound.held v));
      }

  pub Step-IsSound : {t : System} → Step engine self s t → IsSound s → IsSound t
  Step-IsSound (claim tx locked e) sound =
      IsSound-Change s _ _ (λ k r m _ _. absurd m)
        (claim_next_event-Change (λ _. ⊥) self tx s.outbox engine locked)
        (Held-phase_after_claim tx locked sound) sound
  Step-IsSound (deliver c d e) sound = deliver-IsSound c d e sound
  Step-IsSound (settle_published c tx e) sound =
      IsSound-Change s _ resting (sent-accepted s c sound (Held-in s self.owner sound e))
        (mark_published-Change (λ _. ⊥) self tx s.outbox c) tt sound
  Step-IsSound (settle_failed c error tx e) sound =
      IsSound-Change s _ resting (λ k r m _ _. absurd m)
        (release_for_retry-Change (λ _. ⊥) (λ _. ⊥) self tx s.outbox c error) tt sound
  Step-IsSound crash sound =
      IsSound-Change {read = λ _. ⊥} {may = λ _. ⊥} {self = self} s s.outbox resting
        (λ k r m _ _. absurd m) (unchanged refl) tt sound
  Step-IsSound (place e fine unsent new_key) sound = place-IsSound s e fine unsent new_key sound

pub Reach-IsSound : {engine : Engine} {s t : System} → IsSound s → Reach engine s t → IsSound t
Reach-IsSound sound here = sound
Reach-IsSound {engine} sound (next {t = t} self r st) =
    Step-IsSound engine self t st (Reach-IsSound sound r)

pub fresh-IsSound : IsSound fresh
fresh-IsSound = record { keyed = tt; admitted = tt; genuine = tt; covered = tt; held = λ w. tt }
