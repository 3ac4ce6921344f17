-- ===== src/Command.antt =====
-- src/command.cpp and include/command.hpp: from a parsed value to a reply.
pub mod Reply
pub mod Parse
pub mod Strings
pub mod Expiry
pub mod Lists
pub mod Hashes
pub mod Sets
pub mod Keyspace
pub mod Dispatch
