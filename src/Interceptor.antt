-- ===== src/Interceptor.antt =====
-- The packet interceptor, src/core/PacketInterceptor.cpp.
pub mod Capture
pub mod Packet
pub mod Loop
pub mod Passed
pub mod Kept
pub mod Foreign
pub mod Untouched
pub mod Targeted
pub mod Lifecycle
pub mod Stopped
pub mod Endings
mod Tests
