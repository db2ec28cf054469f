-- ===== src/Lifecycle.antt =====
-- pkg/lifecycle: the state machine and the message pump of a copt.
pub mod States
pub mod Manager
pub mod Pump
pub mod Rules
pub mod Fate
pub mod Outcome
pub mod Looks
pub mod Ending
pub mod Retention
pub mod Accepted
pub mod Accepting
pub mod Delivery
pub mod Started
pub mod Counting
pub mod Unanswered
mod Examples
