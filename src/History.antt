-- ===== src/History.antt =====
-- src/MessageHistory.cpp and include/MessageHistory.hpp: the names of the history files, the
-- append loop over `write`, the tail reader, and the class `MessageHistory`.
pub mod Paths
pub mod Store
pub mod Writing
pub mod Reading
