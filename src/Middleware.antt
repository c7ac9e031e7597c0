-- ===== src/Middleware.antt =====
-- services/workspace-service/internal/middleware.
pub mod Auth
pub mod GlobalError
