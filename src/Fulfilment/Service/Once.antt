-- ===== src/Fulfilment/Service/Once.antt =====
-- The three outcomes of `fulfil_order` (apps/fulfilment/service.py), and repeated deliveries.
use swarmscope.Base.{
  ◌≤◌, ◌≡◌, ◌≢◌, refl, sym, ◌∙◌, ◌⊎◌, inl, inr, Bool, true, false, some, ◌∷◌, arith, Bool-cases,
  has_key, Result, ok, err, ok_inj, err_inj, Ending, commits, rolls_back, commits_unseen,
  transaction, ltb,
}
use swarmscope.Contracts.{OrderPlacedV1}
use swarmscope.Orders.Models.{string_accepts}
use swarmscope.Fulfilment.Models.{
  ProcessedEvent, Fulfilment, Constraint, pk_processed_events, pk_fulfilments,
  uq_fulfilments_order_id, ck_fulfilments_quantity_positive, DatabaseError, integrity_error,
  data_error, connection_lost, Tables, insert_processed, insert_fulfilment, processed_key,
  fulfilment_key, order_key, fits_columns,
}
use swarmscope.Fulfilment.Service.{
  Handled, fulfilled, duplicate, is_duplicate, duplicate_constraint, Call, processed_row,
  fulfilment_row, flush, except_integrity, after_transaction, fulfil_order,
}

-- an error that counts as a repeated delivery
abbrev Repeats : DatabaseError → Type 0
Repeats e = except_integrity e ≡ ok duplicate

raised_otherwise : {A : Type 0} (e : DatabaseError) → except_integrity e ≡ err e → Repeats e → A
raised_otherwise e h k = absurd (let both = sym h ∙ k in cc)

insert_processed_cases :
    (p : ProcessedEvent) (t : Tables)
    → ((insert_processed p t ≡ ok (record t { processed = p ∷ t.processed }))
        × (has_key processed_key p.event_id t.processed ≡ false))
      ⊎ ((e : DatabaseError) × (insert_processed p t ≡ err e)
          × (Repeats e → has_key processed_key p.event_id t.processed ≡ true))
unfolding insert_processed except_integrity
insert_processed_cases p t = elim (Bool-cases (string_accepts 100 p.event_type)) [
  | inl fit ↦ elim (Bool-cases (has_key processed_key p.event_id t.processed)) [
    | inl taken ↦ inr (integrity_error (some pk_processed_events), rw (fit, taken) refl, λ _. taken)
    | inr free ↦ inl (rw (fit, free) refl, free)
  ]
  | inr unfit ↦ inr (data_error, rw unfit refl, raised_otherwise data_error refl)
]

insert_fulfilment_cases :
    (f : Fulfilment) (t : Tables)
    → ((insert_fulfilment f t ≡ ok (record t { fulfilments = f ∷ t.fulfilments }))
        × (has_key order_key f.order_id t.fulfilments ≡ false))
      ⊎ ((e : DatabaseError) × (insert_fulfilment f t ≡ err e)
          × (Repeats e → has_key order_key f.order_id t.fulfilments ≡ true))
unfolding insert_fulfilment except_integrity
insert_fulfilment_cases f t = elim (Bool-cases (fits_columns f)) [
  | inr unfit ↦ inr (data_error, rw unfit refl, raised_otherwise data_error refl)
  | inl fit ↦ elim (Bool-cases (ltb 0 f.quantity)) [
    | inr none_ordered ↦ inr (
      integrity_error (some ck_fulfilments_quantity_positive),
      rw (fit, none_ordered) refl,
      raised_otherwise (integrity_error (some ck_fulfilments_quantity_positive)) refl,
    )
    | inl positive ↦ elim (Bool-cases (has_key fulfilment_key f.id t.fulfilments)) [
      | inl taken ↦ inr (
        integrity_error (some pk_fulfilments),
        rw (fit, positive, taken) refl,
        raised_otherwise (integrity_error (some pk_fulfilments)) refl,
      )
      | inr fresh ↦ elim (Bool-cases (has_key order_key f.order_id t.fulfilments)) [
        | inl done ↦ inr (
          integrity_error (some uq_fulfilments_order_id),
          rw (fit, positive, fresh, done) refl,
          λ _. done,
        )
        | inr free ↦ inl (rw (fit, positive, fresh, free) refl, free)
      ]
    ]
  ]
]

-- the tables with both rows
abbrev pub with_rows : ProcessedEvent → Fulfilment → Tables → Tables
with_rows p f t = record { processed = p ∷ t.processed; fulfilments = f ∷ t.fulfilments }

-- The event is recorded, or its order is fulfilled.
abbrev pub IsDone : OrderPlacedV1 → Tables → Type 0
IsDone event t =
    (has_key processed_key event.event_id t.processed ≡ true)
    ⊎ (has_key order_key event.payload.order_id t.fulfilments ≡ true)

-- Neither is.
abbrev pub IsNew : OrderPlacedV1 → Tables → Type 0
IsNew event t =
    (has_key processed_key event.event_id t.processed ≡ false)
    × (has_key order_key event.payload.order_id t.fulfilments ≡ false)

module _ (call : Call) (event : OrderPlacedV1) (t : Tables) where
  abbrev pub both_rows : Tables
  both_rows = with_rows (processed_row call event) (fulfilment_row call event) t

  flush_cases :
      (first : Bool)
      → ((flush first (processed_row call event) (fulfilment_row call event) t ≡ ok (tt, both_rows))
          × IsNew event t)
        ⊎ ((e : DatabaseError) × (flush first
                (processed_row call event)
                (fulfilment_row call event)
                t
              ≡ err e)
            × (Repeats e → IsDone event t))
  unfolding flush
  flush_cases true = elim (insert_processed_cases (processed_row call event) t) [
    | inr (e, failed, why) ↦ inr (e, rw failed refl, λ h. inl (why h))
    | inl (wrote, free) ↦
        elim (insert_fulfilment_cases (fulfilment_row call event)
          (record t { processed = processed_row call event ∷ t.processed })) [
            | inr (e, failed, why) ↦ inr (e, rw (wrote, failed) refl, λ h. inr (why h))
            | inl (wrote', free') ↦ inl (rw (wrote, wrote') refl, (free, free'))
          ]
  ]
  flush_cases false = elim (insert_fulfilment_cases (fulfilment_row call event) t) [
    | inr (e, failed, why) ↦ inr (e, rw failed refl, λ h. inr (why h))
    | inl (wrote, free) ↦
        elim (insert_processed_cases (processed_row call event)
          (record t { fulfilments = fulfilment_row call event ∷ t.fulfilments })) [
            | inr (e, failed, why) ↦ inr (e, rw (wrote, failed) refl, λ h. inl (why h))
            | inl (wrote', free') ↦ inl (rw (wrote, wrote') refl, (free', free))
          ]
  ]

  -- the three outcomes
  pub data Outcome : Result DatabaseError Handled → Tables → Type 0 where
    wrote :
        (r : Result DatabaseError Handled)
        → IsNew event t
        → (r ≡ ok fulfilled) ⊎ (r ≡ err connection_lost)
        → Outcome r both_rows
    repeated : IsDone event t → Outcome (ok duplicate) t
    failed : (e : DatabaseError) → Outcome (err e) t

  raised : (e : DatabaseError) → (Repeats e → IsDone event t) → Outcome (except_integrity e) t
  unfolding except_integrity
  raised data_error why = failed data_error
  raised connection_lost why = failed connection_lost
  raised (integrity_error name) why = elim (Bool-cases (is_duplicate name)) [
    | inl yes_name ↦ rw yes_name (repeated (why (rw yes_name refl)))
    | inr no_name ↦ rw no_name (failed (integrity_error name))
  ]

  ended :
      (ending : Ending)
      → IsNew event t
      → Outcome
          (after_transaction (transaction connection_lost ending t (ok (tt, both_rows)))).0
          (after_transaction (transaction connection_lost ending t (ok (tt, both_rows)))).1
  unfolding transaction except_integrity
  ended commits new = wrote (ok fulfilled) new (inl refl)
  ended rolls_back new = failed connection_lost
  ended commits_unseen new = wrote (err connection_lost) new (inr refl)

  pub fulfil_order-Outcome : Outcome (fulfil_order call event t).0 (fulfil_order call event t).1
  unfolding fulfil_order transaction
  fulfil_order-Outcome = elim (flush_cases call.processed_first) [
    | inl (done, new) ↦ rw done (ended call.ending new)
    | inr (e, stopped, why) ↦ rw stopped (raised e why)
  ]

  settled_again :
      {r : Result DatabaseError Handled} {t' : Tables}
      → Outcome r t'
      → IsDone event t
      → (t' ≡ t) × (r ≢ ok fulfilled)
  settled_again (wrote r new how) (inl done) = absurd (let both = sym done ∙ new.0 in cc)
  settled_again (wrote r new how) (inr done) = absurd (let both = sym done ∙ new.1 in cc)
  settled_again (repeated _) done = (refl, λ h. let same = ok_inj h in cc)
  settled_again (failed e) done = (refl, λ h. cc)

  -- An event that is recorded, or whose order is fulfilled, changes nothing when it is delivered
  -- once more, and is not reported as fulfilled.
  pub fulfil_order_again :
      IsDone event t
      → ((fulfil_order call event t).1 ≡ t) × ((fulfil_order call event t).0 ≢ ok fulfilled)
  fulfil_order_again done = settled_again fulfil_order-Outcome done

  settled_fulfilled :
      {r : Result DatabaseError Handled} {t' : Tables}
      → Outcome r t'
      → r ≡ ok fulfilled
      → (t' ≡ both_rows) × IsNew event t
  settled_fulfilled (wrote r new how) e = (refl, new)
  settled_fulfilled (repeated done) e = absurd (let same = ok_inj e in cc)
  settled_fulfilled (failed _) e = absurd (cc)

  settled_duplicate :
      {r : Result DatabaseError Handled} {t' : Tables}
      → Outcome r t'
      → r ≡ ok duplicate
      → (t' ≡ t) × IsDone event t
  settled_duplicate (wrote r new (inl how)) e = absurd (let same = ok_inj (sym how ∙ e) in cc)
  settled_duplicate (wrote r new (inr how)) e = absurd (let both = sym how ∙ e in cc)
  settled_duplicate (repeated done) e = (refl, done)
  settled_duplicate (failed _) e = absurd (cc)

  settled_err :
      {r : Result DatabaseError Handled} {t' : Tables} (e : DatabaseError)
      → Outcome r t'
      → r ≡ err e
      → (t' ≡ t) ⊎ ((t' ≡ both_rows) × IsNew event t × (e ≡ connection_lost))
  settled_err e (wrote r new (inl how)) h = absurd (let both = sym how ∙ h in cc)
  settled_err e (wrote r new (inr how)) h = inr (refl, new, sym (err_inj (sym how ∙ h)))
  settled_err e (repeated done) h = absurd (cc)
  settled_err e (failed _) h = inl refl

  -- What `fulfil_order` returns or raises says what it did: FULFILLED and both rows of a new event
  -- are written, DUPLICATE and nothing is, since the event was done; an exception leaves the tables
  -- alone, but for a lost connection, which may also hide a commit of both rows.
  pub fulfil_order_tells :
      ((fulfil_order call event t).0 ≡ ok fulfilled
        → ((fulfil_order call event t).1 ≡ both_rows) × IsNew event t)
      × ((fulfil_order call event t).0 ≡ ok duplicate
          → ((fulfil_order call event t).1 ≡ t) × IsDone event t)
      × ((e : DatabaseError)
          → (fulfil_order call event t).0 ≡ err e
          → ((fulfil_order call event t).1 ≡ t)
            ⊎ (((fulfil_order call event t).1 ≡ both_rows) × IsNew event t × (e ≡ connection_lost)))
  fulfil_order_tells = (
    settled_fulfilled fulfil_order-Outcome,
    settled_duplicate fulfil_order-Outcome,
    λ e. settled_err e fulfil_order-Outcome,
  )

  flush_repeats :
      (first : Bool)
      → IsDone event t
      → string_accepts 100 event.event_type ≡ true
      → fits_columns (fulfilment_row call event) ≡ true
      → ltb 0 event.payload.quantity ≡ true
      → has_key fulfilment_key call.fulfilment_id t.fulfilments ≡ false
      → (c : Constraint) × (flush first (processed_row call event) (fulfilment_row call event) t
          ≡ err (integrity_error (some c)))
        × (duplicate_constraint c ≡ true)
  unfolding flush insert_processed insert_fulfilment
  flush_repeats true done short fit ordered fresh =
      elim (Bool-cases (has_key processed_key event.event_id t.processed)) [
        | inl seen ↦ (pk_processed_events, rw (short, seen) refl, refl)
        | inr unseen ↦ elim done [
          | inl seen ↦ absurd (let both = sym seen ∙ unseen in cc)
          | inr placed ↦
              (uq_fulfilments_order_id, rw (short, unseen, fit, ordered, fresh, placed) refl, refl)
        ]
      ]
  flush_repeats false done short fit ordered fresh =
      elim (Bool-cases (has_key order_key event.payload.order_id t.fulfilments)) [
        | inl placed ↦ (uq_fulfilments_order_id, rw (fit, ordered, fresh, placed) refl, refl)
        | inr unplaced ↦ elim done [
          | inl seen ↦
              (pk_processed_events, rw (fit, ordered, fresh, unplaced, short, seen) refl, refl)
          | inr placed ↦ absurd (let both = sym placed ∙ unplaced in cc)
        ]
      ]

  -- A done event whose values the columns hold is reported as a duplicate when it is delivered
  -- under a new fulfilment id, whichever row is written first, and changes nothing.
  pub fulfil_order_repeats :
      IsDone event t
      → string_accepts 100 event.event_type ≡ true
      → fits_columns (fulfilment_row call event) ≡ true
      → 1 ≤ event.payload.quantity
      → has_key fulfilment_key call.fulfilment_id t.fulfilments ≡ false
      → fulfil_order call event t ≡ (ok duplicate, t)
  unfolding fulfil_order transaction except_integrity
  fulfil_order_repeats done short fit ordered fresh =
      let (c, stopped, counts) =
        flush_repeats call.processed_first done short fit (ground arith) fresh in
      rw (stopped, counts) refl
