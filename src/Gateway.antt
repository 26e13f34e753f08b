-- ===== src/Gateway.antt =====
-- src/rms/gateway.py: the RF side of `Gateway`. `handle` is in Handle, the task `cms_to_rf` in
-- Relay. What both write to the outside is the trace `out` of the state.
pub mod State
pub mod Relay
pub mod Handle
pub mod Replies
pub mod Window
pub mod Accepting
pub mod Delivery
pub mod Relaying
pub mod Lost
pub mod Sessions
