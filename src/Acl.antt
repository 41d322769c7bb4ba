-- ===== src/Acl.antt =====
-- fabko/agent/protocol/acl.hh: the messages of the agents' communication language.
pub mod MessageType
pub mod Json
pub mod Message
