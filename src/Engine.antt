-- ===== src/Engine.antt =====
-- src/core/PacketEffectEngine.cpp and its header: what happens to one captured packet.
pub mod Emission
pub mod Direction
pub mod Both
pub mod Times
pub mod Schedule
pub mod Drawn
pub mod Emitted
pub mod Process
pub mod Run
pub mod Throttle
pub mod Burst
pub mod Transparent
pub mod Tests
