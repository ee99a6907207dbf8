-- ===== src/Chat.antt =====
-- sessions.
pub mod State
pub mod Room
pub mod Broadcast
pub mod Nicknames
pub mod Rooms
pub mod Server
pub mod Accounts
