-- ===== src/Authz.antt =====
-- backend/internal/authz: the policy, its validation and the decisions made with it.
pub mod Policy
pub mod Roles
pub mod RoleSet
pub mod Enforce
pub mod Validate
pub mod Load
pub mod Authorizer
mod Examples
