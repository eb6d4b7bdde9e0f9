-- ===== src/Registrar.antt =====
-- internal/task/memory/task.go and internal/validation/validation.go: the registered tasks, and the
-- handling of one delivery.
mod Tasks
mod Headers
mod Send
mod Retry
mod Process
pub mod Registration
pub mod Order
pub mod Sending
pub mod Retries
pub mod Settling
pub mod Handling
pub mod Receiving
pub mod Intervals
pub mod Progress
pub mod RoundTrip
pub mod Json
pub mod Published
pub mod FailedQueue
pub mod Lifecycle
pub mod Burial
pub mod Endless
pub mod Redelivery
pub mod Transport
pub mod Routing
unfoldable pub use Tasks.*
unfoldable pub use Headers.*
unfoldable pub use Send.*
unfoldable pub use Retry.*
unfoldable pub use Process.*
