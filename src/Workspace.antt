-- ===== src/Workspace.antt =====
-- services/workspace-service/internal/workspace and internal/temporal.
pub mod Service
pub mod Invite
pub mod Members
pub mod Lists
pub mod Temporal
pub mod Invitation
pub mod RoleCache
pub mod Cache
pub mod MemberCache
pub mod Controller
pub mod Repository
