-- ===== src/Storage.antt =====
-- Persistent state: the mapper as an interface, the tables' row types, and the database.
pub mod Orm
pub mod Enums
pub mod Rows
pub mod Db
pub mod Minio
pub mod Samples
