-- ===== src/Orders.antt =====
-- apps/orders: the Orders API's tables, the transactional outbox and its publisher.
pub mod Models
pub mod Backoff
pub mod Messaging
pub mod ServiceBus
pub mod Migrations
pub mod Outbox
pub mod PublisherWorker
pub mod Schemas
pub mod Service
mod Tests
