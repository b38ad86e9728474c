-- ===== src/Fulfilment/Consumer/Settles.antt =====
-- What a settlement of apps/fulfilment/consumer.py says of the delivery.
use swarmscope.Base.{
  ℕ, ◌≡◌, refl, subst, inl, inr, Bool-cases, Option, none, some, List, ◌∷◌, Text, Result, ok, err,
  ok_inj,
}
use swarmscope.Contracts.{OrderPlacedV1}
use swarmscope.Fulfilment.Models.{Tables, DatabaseError}
use swarmscope.Fulfilment.Service.{Handled, fulfil_order}
use swarmscope.Fulfilment.Consumer.{
  Settlement, completed, dead_lettered, abandoned, Delivery, Consumer, ConsumerError, read_body,
  tell, settle_handled, settle_parsed, settle_read, settle_message,
}

module _ (decode : List ℕ → Option Text) (validate_json : Text → Option OrderPlacedV1)
    (d : Delivery) (c : Consumer) where
  -- The delivery's settlement with the tables after it: a valid event that `fulfil_order` handled,
  -- one on which it raised, or a text that is no event.
  pub data Settles : Settlement → Tables → Type 0 where
    handled :
        (text : Text) (event : OrderPlacedV1) (h : Handled)
        → read_body decode validate_json d.body ≡ ok text
        → validate_json text ≡ some event
        → (fulfil_order d.call event c.tables).0 ≡ ok h
        → Settles completed (fulfil_order d.call event c.tables).1
    raised :
        (text : Text) (event : OrderPlacedV1) (e : DatabaseError)
        → read_body decode validate_json d.body ≡ ok text
        → validate_json text ≡ some event
        → (fulfil_order d.call event c.tables).0 ≡ err e
        → Settles abandoned (fulfil_order d.call event c.tables).1
    invalid :
        (text : Text)
        → read_body decode validate_json d.body ≡ ok text
        → validate_json text ≡ none
        → Settles dead_lettered c.tables

  -- `tell` returned, with this settlement of these tables.
  abbrev pub IsTold : Settlement → Tables → Result ConsumerError Settlement × Consumer → Type 0
  IsTold s tables r = (r.0 ≡ ok s) × (r.1.tables ≡ tables) × (r.1.told ≡ (s, d.body) ∷ c.told)

  tell-IsTold :
      (settlement s : Settlement) (tables : Tables)
      → (tell decode validate_json settlement d (record c { tables = tables })).0 ≡ ok s
      → (settlement ≡ s)
        × IsTold settlement tables
            (tell decode validate_json settlement d (record c { tables = tables }))
  unfolding tell
  tell-IsTold settlement s tables h = elim (Bool-cases d.receiver_returns) [
    | inl returns ↦ (ok_inj (rw returns at h), (rw returns refl, rw returns refl, rw returns refl))
    | inr raises ↦ absurd (let h' = rw raises at h in cc)
  ]

  -- a settlement that describes its delivery
  abbrev pub IsSettlement : Settlement → Result ConsumerError Settlement × Consumer → Type 0
  IsSettlement s r = (tables : Tables) × Settles s tables × IsTold s tables r

  told-IsSettlement :
      (settlement s : Settlement) (tables : Tables)
      → Settles settlement tables
      → (tell decode validate_json settlement d (record c { tables = tables })).0 ≡ ok s
      → IsSettlement s (tell decode validate_json settlement d (record c { tables = tables }))
  told-IsSettlement settlement s tables described h =
      let (same, told) = tell-IsTold settlement s tables h in
      subst
        (λ x.
          IsSettlement x (tell decode validate_json settlement d (record c { tables = tables })))
        same (tables, described, told)

  settle_handled-IsSettlement :
      (text : Text) (event : OrderPlacedV1)
      → read_body decode validate_json d.body ≡ ok text
      → validate_json text ≡ some event
      → (r : Result DatabaseError Handled) → (fulfil_order d.call event c.tables).0 ≡ r
      → {s : Settlement}
      → (settle_handled decode validate_json d (r, (fulfil_order d.call event c.tables).1) c).0
        ≡ ok s
      → IsSettlement s
          (settle_handled decode validate_json d (r, (fulfil_order d.call event c.tables).1) c)
  unfolding settle_handled
  settle_handled-IsSettlement text event reads valid (ok h) did {s} told =
      told-IsSettlement completed s _ (handled text event h reads valid did) told
  settle_handled-IsSettlement text event reads valid (err e) did {s} told =
      told-IsSettlement abandoned s _ (raised text event e reads valid did) told

  settle_parsed-IsSettlement :
      (text : Text)
      → read_body decode validate_json d.body ≡ ok text
      → (parsed : Option OrderPlacedV1) → validate_json text ≡ parsed
      → {s : Settlement} → (settle_parsed decode validate_json d parsed c).0 ≡ ok s
      → IsSettlement s (settle_parsed decode validate_json d parsed c)
  unfolding settle_parsed
  settle_parsed-IsSettlement text reads none valid {s} told =
      told-IsSettlement dead_lettered s c.tables (invalid text reads valid) told
  settle_parsed-IsSettlement text reads (some event) valid told =
      settle_handled-IsSettlement text event reads valid (fulfil_order d.call event c.tables).0 refl
        told

  settle_read-IsSettlement :
      (text : Result ConsumerError Text)
      → read_body decode validate_json d.body ≡ text
      → {s : Settlement} → (settle_read decode validate_json d text c).0 ≡ ok s
      → IsSettlement s (settle_read decode validate_json d text c)
  unfolding settle_read
  settle_read-IsSettlement (err e) reads told = absurd (cc)
  settle_read-IsSettlement (ok text) reads told =
      settle_parsed-IsSettlement text reads (validate_json text) refl told

  -- When `settle_message` returns a settlement, the broker has been told just that of this message,
  -- and it describes the delivery: COMPLETED for a valid event that `fulfil_order` handled,
  -- ABANDONED for one on which it raised, and DEAD_LETTERED, with the tables unchanged, for a text
  -- that is no event.
  pub settle_message_describes :
      {s : Settlement}
      → (settle_message decode validate_json d c).0 ≡ ok s
      → IsSettlement s (settle_message decode validate_json d c)
  unfolding settle_message
  settle_message_describes told =
      settle_read-IsSettlement (read_body decode validate_json d.body) refl told
