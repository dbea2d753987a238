-- ===== src/Worker.antt =====
-- swimprotocol/worker.py: `Worker`, which handles packets, detects failures and spreads gossip.
mod Defs
mod Checks
pub mod Timers
pub mod Valid
pub mod Handled
pub mod Schedule
pub mod Stays
pub mod Sends
pub mod Events
pub mod Checked
pub mod Reach
pub mod Steps
pub mod Answers
pub mod Detection
pub mod Dissemination
pub mod Quiet
mod Tests
unfoldable pub use Defs.{
  send, add_waiting, add_listening, notify_waiting, get_listening, build_gossip, handle_status,
  send_acks, send_gossip, suspect_wait_end, apply_gossip, arrive, dispatch, handle, disseminate,
  init,
}
pub use Defs.{Worker, source_or, source_named, local_source}
unfoldable pub use Checks.{
  wait_start, check_start, check_end, check_pinged, check_sending, check_resume, detect_targets,
  dissemination_targets,
}
pub use Checks.{Phase}
