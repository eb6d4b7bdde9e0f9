-- ===== src/World.antt =====
-- What the program's code shares at run time, and what it asks of the outside. `World` is the state
-- that the handlers change; `Env` answers each call that leaves the program (the clock, the uuid
-- generator, encoding/json and the AMQP client), by the number of the call, so that one call may
-- succeed and the next one fail in any pattern. `Exec` runs code that changes the world and may
-- return an error or panic: what was done before an error stays done.
mod Calls
pub mod Frame
pub mod Inversion
pub mod Total
pub mod Moves
unfoldable pub use Calls.*
