-- ===== src/Tests.antt =====
-- The theorems at concrete inputs.
pub mod Database
pub mod Tables
mod Stored
mod Journey
pub mod Pipeline
pub mod TaskService
pub mod Board
pub mod Invitations
pub mod Columns
pub mod Caches
pub mod Shelf
mod Projects
mod Requests
