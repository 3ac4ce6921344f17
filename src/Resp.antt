-- ===== src/Resp.antt =====
-- src/resp.cpp and include/resp.hpp: the wire protocol.
pub mod Value
pub mod Encoder
pub mod Parser
pub mod RoundTrip
