-- ===== src/Project.antt =====
-- services/workspace-service/internal/project.
pub mod Service
pub mod Cache
pub mod Controller
pub mod Repository
