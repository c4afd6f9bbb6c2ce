-- ===== src/Delay.antt =====
-- The delay queue: src/core/DelayQueue.cpp and include/core/ScheduledPacketQueue.h.
pub mod Interfaces
pub mod Schedule
pub mod Ready
pub mod Queue
pub mod Slots
pub mod Laws
pub mod Accepted
pub mod Rounds
pub mod Flush
pub mod Calls
pub mod Samples
pub mod Tests
