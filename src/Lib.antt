-- ===== src/Lib.antt =====
-- Swarmscope: an order service with a transactional outbox, the consumer of its events, and a
-- runner of reversible faults. This library models their Python code and proves what they promise.
--
-- How the parts interact. `POST /orders` (apps/orders/main.py, service.py) writes an order and its
-- OrderPlaced event in one transaction. A publisher process (apps/orders/publisher_worker.py,
-- outbox.py) claims one due event at a time under a lease, sends it to the broker, and marks it as
-- published or schedules it again. The consumer (apps/fulfilment/consumer.py, service.py) receives
-- each event at least once and fulfils its order once. The fault runner (chaos/runner.py, state.py,
-- catalogue.py) breaks a dependency, checks the symptom, and reverts what it did; it acts through
-- chaos/environment.py. The migrations (apps/orders/migrations) create the tables, and the load
-- generator (apps/loadgen/generator.py) sends orders on a schedule.
--
-- Files and the code that they model:
--   Base, Base/*                names passed on, lists, keyed tables, JSON, transactions of SQLAlchemy
--   Runtime                     packages/runtime.py: the pause that a shutdown request ends
--   Contracts, Contracts/*      packages/contracts/order_placed.py: the event and its validation, from
--                               values and, in Parse, from the JSON text of a message
--   Orders/Models               apps/orders/models.py: rows, column types and CHECK constraints
--   Orders/Schemas              apps/orders/schemas.py: the request and the reply
--   Orders/Service              apps/orders/service.py and main.py: `place_order`, `create_order`
--   Orders/Messaging            apps/orders/messaging.py: the event that is handed to the publisher
--   Orders/ServiceBus           apps/orders/servicebus.py: `to_service_bus_message`; its child
--                               Publisher is the connection from `__aenter__` to `__aexit__`, and
--                               Wire a printer and a reader of JSON for the examples
--   Orders/Backoff              apps/orders/outbox.py: `backoff_delay` and the constants
--   Orders/Outbox               apps/orders/outbox.py: `OutboxPublisher`, method by method; its child
--                               Database is the interface to PostgreSQL's `SELECT … SKIP LOCKED`
--   Orders/Outbox/Workers       several publisher processes as interleaved steps of `run_once`
--   Orders/PublisherWorker      apps/orders/publisher_worker.py: `run_publisher_loop`
--   Fulfilment/Models, Service  apps/fulfilment/models.py, service.py: `fulfil_order`
--   Fulfilment/Consumer         apps/fulfilment/consumer.py: `settle_message`, `run_consumer_loop`
--   Chaos/Catalogue             chaos/catalogue.py: `Fault` and its validators; Load is
--                               `load_catalogue`
--   Chaos/State                 chaos/state.py: `FaultStateStore` on a directory
--   Chaos/Runner                chaos/runner.py: `FaultRunner.run` and `revert`; Plan is the text of
--                               `--dry-run`
--   Chaos/Environment           chaos/environment.py: `detect`, `apply` and `run_command`; Restored and
--                               Recovered follow the entities' statuses through a whole run
--   Orders/Migrations           apps/orders/migrations/versions: the three migrations on a database's
--                               objects; Declared has the models' tables, named as in
--                               packages/persistence.py
--   Loadgen                     apps/loadgen/generator.py: the statistics, `issue_one` and `run_load`
--   Observability               packages/observability.py: `ContextFormatter.format`
--   Pipeline                    an order's path through service, message, consumer and fulfilment
--   Chaos/Cli                   chaos/__main__.py: the commands with their exit codes, inside
--                               `production_environment` of chaos/environment.py
--   Tests, below each part      runs at concrete values
--
-- Conventions. A function that may raise returns a `Result`; one that changes tables, files or the
-- surroundings returns them beside it. UUIDs are numbers that are only compared, times and durations
-- are microseconds on one clock (that of PostgreSQL starts at `datetime.min`), and a text is the list
-- of its code points. A date after `datetime.max` that outbox.py computes raises, and so does the
-- write of a text that PostgreSQL cannot store. Everything that the code does not decide is an
-- argument: what PostgreSQL's clock says, how a transaction ends (it commits, it rolls back, or it
-- commits and the connection breaks before the reply), what the broker does with a
-- message, new UUIDs, pydantic's parsing. The loops run over a list of rounds, one for each turn of
-- the loop; `loop_returns` and `run_load_returns` say how many are enough. There is no fuel elsewhere,
-- but for the examples' reader of JSON in Orders/ServiceBus/Wire, whose texts begin with a bound that
-- is enough. Python's floats are whole numbers of a unit of time where they are times (of a
-- microsecond but in Loadgen, whose unit divides the interval between two orders), a ratio of two
-- numbers where they are the fraction of a percentile, and parameters elsewhere: their rounding is
-- not modelled.
--
-- Not modelled: the wiring of FastAPI, SQLAlchemy's engine, Azure's clients and the signal handlers,
-- argparse, logging and other printing, `configure_logging`, `HttpOrderSender`,
-- apps/loadgen/__main__.py, apps/orders/migrations/env.py, the settings and the engines of
-- apps/orders/config.py and database.py, and the `main` of the publisher and of the consumer: they
-- only construct and connect what other libraries provide.
pub mod Base
pub mod Runtime
pub mod Contracts
pub mod Orders
pub mod Fulfilment
pub mod Chaos
pub mod Pipeline
pub mod Loadgen
pub mod Observability
