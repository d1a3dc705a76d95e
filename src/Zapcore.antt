-- ===== src/Zapcore.antt =====
-- The package zapcore: levels, checked entries, the core, and the encoding of an entry.
pub mod Level
pub mod Utf8
pub mod Entry
pub mod Core
pub mod WriteSyncer
pub mod Encoder
pub mod Failure
pub mod Field
pub mod Json
pub mod Memory
