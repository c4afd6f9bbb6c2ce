-- ===== src/Config.antt =====
-- include/core/EffectConfig.h: the settings of each direction, and the two directions together.
pub mod Direction
pub mod Effects
pub mod Bounds
pub mod Tests
