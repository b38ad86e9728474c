-- ===== src/Orders/Messaging.antt =====
-- apps/orders/messaging.py: the event that is handed to the broker.
use swarmscope.Base.{ℕ, Text, Json}

pub record OutboundEvent : Type 0 where
  pub event_id : ℕ
  pub event_type : Text
  pub event_version : ℕ
  pub occurred_at : ℕ
  pub correlation_id : ℕ
  pub payload : Json
