-- ===== src/Fulfilment/Service/Writes.antt =====
-- New events in `fulfil_order` (apps/fulfilment/service.py).
use swarmscope.Base.{
  ◌≤◌, ◌≡◌, refl, Bool, true, false, ok, commits, arith, ltb, has_key, transaction,
}
use swarmscope.Contracts.{OrderPlacedV1}
use swarmscope.Orders.Models.{string_accepts}
use swarmscope.Fulfilment.Models.{
  Tables, insert_processed, insert_fulfilment, fulfilment_key, fits_columns,
}
use swarmscope.Fulfilment.Service.{
  Call, fulfilled, processed_row, fulfilment_row, flush, fulfil_order,
}
use swarmscope.Fulfilment.Service.Once.{IsNew, both_rows}

module _ (call : Call) (event : OrderPlacedV1) (t : Tables) where
  -- What the columns hold of an event, under a new fulfilment id.
  pub record IsHeld : Type 0 where
    pub short : string_accepts 100 event.event_type ≡ true
    pub fits : fits_columns (fulfilment_row call event) ≡ true
    pub positive : 1 ≤ event.payload.quantity
    pub fresh : has_key fulfilment_key call.fulfilment_id t.fulfilments ≡ false

  flush_new :
      (first : Bool)
      → IsNew event t
      → IsHeld
      → ltb 0 event.payload.quantity ≡ true
      → flush first (processed_row call event) (fulfilment_row call event) t
        ≡ ok (tt, both_rows call event t)
  unfolding flush insert_processed insert_fulfilment
  flush_new true new held some_ordered =
      rw (held.short, new.0, held.fits, some_ordered, held.fresh, new.1) refl
  flush_new false new held some_ordered =
      rw (held.fits, some_ordered, held.fresh, new.1, held.short, new.0) refl

  -- A new event that the columns hold is fulfilled, and both rows are written, when the
  -- transaction commits.
  pub fulfil_order_new :
      IsNew event t
      → IsHeld
      → call.ending ≡ commits
      → fulfil_order call event t ≡ (ok fulfilled, both_rows call event t)
  unfolding fulfil_order transaction
  fulfil_order_new new held ends =
      rw (flush_new call.processed_first new held (let p = held.positive in ground arith), ends)
        refl
