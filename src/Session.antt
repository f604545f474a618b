-- ===== src/Session.antt =====
-- src/fsm.rs, the state machine and the choice on a disconnect of src/peer.rs, and src/timer.rs.
pub mod Fsm
pub mod Timers
pub mod Restart
pub mod Peer
pub mod Loop
mod Tests
