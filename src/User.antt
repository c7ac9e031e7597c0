-- ===== src/User.antt =====
-- services/workspace-service/internal/user.
pub mod Repository
