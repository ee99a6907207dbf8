-- ===== src/Tests.antt =====
-- The theorems at concrete inputs.
pub mod Data
pub mod Chat
pub mod Rooms
pub mod History
pub mod Tcp
pub mod Http
pub mod Places
pub mod Config
pub mod Listening
pub mod Strand
pub mod System
pub mod WsSystem
pub mod Startup
