-- ===== src/Flow.antt =====
-- The flow tracker, src/core/FlowTracker.cpp: which process a UDP flow belongs to.
pub mod Failures
pub mod Tracker
pub mod Loop
pub mod Laws
pub mod Calls
pub mod Memory
pub mod Interleaved
pub mod Endings
mod Tests
