-- ===== src/Provider.antt =====
-- internal/provider/amqp.go: the connection pool and the publish with confirms. The pool is guarded
-- by a mutex, so each of its methods is one step here. Random pauses have no effect and are left out.
mod Dialing
mod Channels
mod Pool
mod Confirm
pub mod Effects
pub mod Delivery
pub mod Total
pub mod Rotation
mod Parts
pub mod Ownership
pub mod Sharing
pub mod Growth
unfoldable pub use Dialing.*
unfoldable pub use Channels.*
unfoldable pub use Pool.*
unfoldable pub use Confirm.*
