-- ===== src/Sessions.antt =====
-- The sessions of src/ChatSession.cpp and src/WebSocketSession.cpp.
pub mod Words
pub mod Posted
pub mod WebSocket
pub mod Tcp
