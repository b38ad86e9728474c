-- ===== src/Fulfilment/Consumer/Account.antt =====
-- The rows of both tables of apps/fulfilment as an account of the events that were handled.
use swarmscope.Base.{
  ℕ, ◌≡◌, refl, sym, ◌∙◌, subst, ◌⊎◌, inl, inr, true, List, [], ◌∷◌, Bool-cases, has_key, IsKeyed,
  In, All, All-In, ◌==◌, ==→eq, Result, ok,
}
use swarmscope.Contracts.{OrderPlacedV1}
use swarmscope.Fulfilment.Models.{
  ProcessedEvent, Fulfilment, Tables, DatabaseError, processed_key, order_key,
}
use swarmscope.Fulfilment.Service.{Handled, Call}
use swarmscope.Fulfilment.Service.Once.{IsDone, Outcome, wrote, repeated, failed}

-- The two rows that `event` leaves.
pub record Fulfils (event : OrderPlacedV1) (p : ProcessedEvent) (f : Fulfilment) : Type 0 where
  pub event_id : p.event_id ≡ event.event_id
  pub order_id : f.order_id ≡ event.payload.order_id
  pub customer_id : f.customer_id ≡ event.payload.customer_id
  pub sku : f.sku ≡ event.payload.sku
  pub quantity : f.quantity ≡ event.payload.quantity
  pub correlation_id : f.correlation_id ≡ event.correlation_id

-- The rows of both tables are those of the events, in order.
abbrev pub Lines : List OrderPlacedV1 → List ProcessedEvent → List Fulfilment → Type 0
Lines [] [] [] = Unit
Lines (e ∷ es) (p ∷ ps) (f ∷ fs) = Fulfils e p f × Lines es ps fs
Lines [] [] (f ∷ fs) = ⊥
Lines [] (p ∷ ps) fs = ⊥
Lines (e ∷ es) [] fs = ⊥
Lines (e ∷ es) (p ∷ ps) [] = ⊥

abbrev pub event_key : OrderPlacedV1 → ℕ
event_key e = e.event_id

abbrev pub placed_key : OrderPlacedV1 → ℕ
placed_key e = e.payload.order_id

Lines-processed :
    (k : ℕ) (es : List OrderPlacedV1) (ps : List ProcessedEvent) (fs : List Fulfilment)
    → Lines es ps fs
    → has_key processed_key k ps ≡ has_key event_key k es
Lines-processed k [] [] [] h = refl
Lines-processed k [] [] (f ∷ fs) h = elim h [ ]
Lines-processed k [] (p ∷ ps) fs h = elim h [ ]
Lines-processed k (e ∷ es) [] fs h = elim h [ ]
Lines-processed k (e ∷ es) (p ∷ ps) [] h = elim h [ ]
Lines-processed k (e ∷ es) (p ∷ ps) (f ∷ fs) h =
    rw (h.0.event_id, Lines-processed k es ps fs h.1) refl

Lines-orders :
    (k : ℕ) (es : List OrderPlacedV1) (ps : List ProcessedEvent) (fs : List Fulfilment)
    → Lines es ps fs
    → has_key order_key k fs ≡ has_key placed_key k es
Lines-orders k [] [] [] h = refl
Lines-orders k [] [] (f ∷ fs) h = elim h [ ]
Lines-orders k [] (p ∷ ps) fs h = elim h [ ]
Lines-orders k (e ∷ es) [] fs h = elim h [ ]
Lines-orders k (e ∷ es) (p ∷ ps) [] h = elim h [ ]
Lines-orders k (e ∷ es) (p ∷ ps) (f ∷ fs) h = rw (h.0.order_id, Lines-orders k es ps fs h.1) refl

-- A key that is there belongs to a member.
member_of_key :
    (key : OrderPlacedV1 → ℕ) (k : ℕ) (es : List OrderPlacedV1)
    → has_key key k es ≡ true
    → (e : OrderPlacedV1) × In e es × (key e ≡ k)
member_of_key key k [] h = absurd (cc)
member_of_key key k (e ∷ es) h = elim (Bool-cases (key e == k)) [
  | inl hit ↦ (e, inl refl, ==→eq _ _ hit)
  | inr miss ↦
      let (e', inside, same) = member_of_key key k es (rw miss at h) in (e', inr inside, same)
]

-- Events of the topic that share an id or an order are the same event.
abbrev pub Agrees : List OrderPlacedV1 → Type 0
Agrees sent =
    (e e' : OrderPlacedV1)
    → In e sent
    → In e' sent
    → (event_key e ≡ event_key e') ⊎ (placed_key e ≡ placed_key e')
    → e ≡ e'

-- Each row is that of one of these events, and no id and no order occurs twice.
pub record IsOnce (sent : List OrderPlacedV1) (es : List OrderPlacedV1) (t : Tables) : Type 0 where
  pub lines : Lines es t.processed t.fulfilments
  pub ids : IsKeyed event_key es
  pub orders : IsKeyed placed_key es
  pub genuine : All (λ e. In e sent) es

-- What one call of `fulfil_order` does to the events on record.
pub record Grows (sent : List OrderPlacedV1) (event : OrderPlacedV1) (es : List OrderPlacedV1)
    (r : Result DatabaseError Handled) (t : Tables) : Type 0 where
  pub now : List OrderPlacedV1
  pub once : IsOnce sent now t
  pub kept : (e : OrderPlacedV1) → In e es → In e now
  pub done : (h : Handled) → r ≡ ok h → In event now

module _ (sent : List OrderPlacedV1) (agrees : Agrees sent) where
  done-In :
      (event : OrderPlacedV1) (es : List OrderPlacedV1) (t : Tables)
      → IsOnce sent es t
      → In event sent
      → IsDone event t
      → In event es
  done-In event es t once inside (inl d) =
      let (e', at, same) =
        member_of_key event_key event.event_id es
          (sym (Lines-processed event.event_id es t.processed t.fulfilments once.lines) ∙ d) in
      subst (λ x. In x es)
        (agrees e' event (All-In (λ x. In x sent) e' es once.genuine at) inside (inl same)) at
  done-In event es t once inside (inr d) =
      let (e', at, same) =
        member_of_key placed_key event.payload.order_id es
          (sym (Lines-orders event.payload.order_id es t.processed t.fulfilments once.lines) ∙ d) in
      subst (λ x. In x es)
        (agrees e' event (All-In (λ x. In x sent) e' es once.genuine at) inside (inr same)) at

  -- One call of `fulfil_order` keeps the account, and adds the event if it returns.
  pub Outcome-Grows :
      (call : Call) (event : OrderPlacedV1) (es : List OrderPlacedV1) (t : Tables)
      {r : Result DatabaseError Handled} {t' : Tables}
      → Outcome call event t r t'
      → IsOnce sent es t
      → In event sent
      → Grows sent event es r t'
  Outcome-Grows call event es t (wrote r new how) once inside = record {
    now = event ∷ es;
    once = record {
      lines = (
        record {
          event_id = refl;
          order_id = refl;
          customer_id = refl;
          sku = refl;
          quantity = refl;
          correlation_id = refl;
        },
        once.lines,
      );
      ids = (
        sym (Lines-processed event.event_id es t.processed t.fulfilments once.lines) ∙ new.0,
        once.ids,
      );
      orders = (
        sym (Lines-orders event.payload.order_id es t.processed t.fulfilments once.lines) ∙ new.1,
        once.orders,
      );
      genuine = (inside, once.genuine);
    };
    kept = λ e m. inr m;
    done = λ h e. inl refl;
  }
  Outcome-Grows call event es t (repeated d) once inside = record {
    now = es;
    once = once;
    kept = λ e m. m;
    done = λ h e. done-In event es t once inside d;
  }
  Outcome-Grows call event es t (failed x) once inside = record {
    now = es;
    once = once;
    kept = λ e m. m;
    done = λ h e. absurd (cc);
  }
