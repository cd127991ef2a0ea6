-- ===== src/Storage.antt =====
-- app/storage: the keys under which files are stored, and the two storages.
pub mod Keys
pub mod Failures
pub mod Local
pub mod Sdk
pub mod Minio
