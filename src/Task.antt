-- ===== src/Task.antt =====
-- services/workspace-service/internal/task.
pub mod Repository
pub mod Service
pub mod Access
pub mod Quiet
pub mod Guarded
pub mod Cache
pub mod Controller
pub mod Journey
