-- ===== src/Rules.antt =====
-- The rules of libs/common/src/rules/ and their use as policies in apps/upload/src/policy.service.ts.
pub mod Text
pub mod Condition
pub mod Context
pub mod Spread
pub mod Evaluation
pub mod Fields
pub mod Store
pub mod Query
pub mod Links
pub mod Service
pub mod Policies
mod Samples
