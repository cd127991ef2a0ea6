-- ===== src/Core.antt =====
-- app/core: the retry helper that the adapters of remote services share.
pub mod Retry
