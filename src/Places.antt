-- ===== src/Places.antt =====
-- src/handlers/PlacesApiHandler.cpp, by parts; sockets and the JSON library are arguments.
pub mod Json
pub mod Connection
pub mod Connecting
pub mod Transforming
pub mod Api
pub mod Handlers
pub mod Photo
pub mod Answering
pub mod Replying
pub mod Reaching
pub mod Failing
pub mod Searching
pub mod Asking
pub mod Redirecting
pub mod Serving
