-- ===== src/Pipeline.antt =====
-- The whole path of an order: `place_order` (apps/orders/service.py) writes its event, the
-- publisher sends it as a message (apps/orders/servicebus.py), and the consumer settles the
-- delivery (apps/fulfilment/consumer.py, apps/fulfilment/service.py).
pub mod Delivered
mod Tests
