-- ===== src/Config.antt =====
-- config: what the two apps share.
pub mod ClientIp
pub mod TaskLock
