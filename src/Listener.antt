-- ===== src/Listener.antt =====
-- swimprotocol/listener.py: `Listener`, and the work of `CallbackPoll`.
mod Defs
pub mod Delivery
pub mod Callback
mod Fresh
mod Waits
pub mod Calls
mod Tests
unfoldable pub use Defs.{init, poll_start, poll_end, notify, set_events, pending}
pub use Defs.{Listener, Waiter}
