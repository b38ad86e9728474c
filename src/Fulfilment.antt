-- ===== src/Fulfilment.antt =====
-- apps/fulfilment: the consumer of the orders' events.
pub mod Models
pub mod Service
pub mod Consumer
mod Tests
