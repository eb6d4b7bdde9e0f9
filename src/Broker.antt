-- ===== src/Broker.antt =====
-- internal/broker/amqp/broker.go. `AmqpBroker` keeps the pointee of `config.AMQP`, which every
-- method reads through; `new_amqp_broker` fails where it is nil.
mod Defs
mod Message
mod Setup
mod Publish
pub mod Topology
pub mod Contract
pub mod Expiry
pub mod Starting
pub mod Routing
unfoldable pub use Defs.*
unfoldable pub use Message.*
unfoldable pub use Setup.*
unfoldable pub use Publish.*
