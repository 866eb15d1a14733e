-- ===== src/Config.antt =====
-- apps/upload/src/config: the configurations of devices, in revisions of groups.
pub mod Json
pub mod Rows
pub mod Yaml
pub mod Version
pub mod Store
pub mod Secrets
pub mod Groups
pub mod Revisions
pub mod Maps
pub mod Provision
pub mod Associations
pub mod Samples
pub mod Life
pub mod Assembly
pub mod Paths
mod Tests
