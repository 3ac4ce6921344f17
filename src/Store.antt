-- ===== src/Store.antt =====
-- src/store.cpp and include/store.hpp: the keyspace. An operation that takes the exclusive lock
-- returns the new data beside its result; one under the shared lock returns its result alone.
pub mod Collection
pub mod Value
pub mod Live
pub mod Strings
pub mod Expiry
pub mod Lists
pub mod Hashes
pub mod Sets
pub mod Glob
pub mod Keyspace
pub mod Keeps
pub mod View
pub mod Invariant
