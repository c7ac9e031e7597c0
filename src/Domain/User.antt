-- ===== src/Domain/User.antt =====
-- services/workspace-service/internal/domain/user.go.
use distributed_workflow_sys.Prelude.{ℕ, String, List}
use distributed_workflow_sys.Prelude.Act.{Act}

pub record UserSnapshot : Type 0 where
  pub id : String
  pub full_name : String
  pub email : String
  pub role : String
  pub avatar_url : String
  pub created_at : ℕ

pub record UserLogoutPayload : Type 0 where
  pub user_id : String
  pub device_id : String

-- The lookups return a user or an error, never a null user without one.
pub record UserRepository (W : Type 0) : Type 0 where
  pub upsert_user : UserSnapshot → Act W (Unit {0})
  pub bulk_upsert_users : List UserSnapshot → Act W (List UserSnapshot)
  pub find_by_id : String → Act W UserSnapshot
  pub find_by_email : String → Act W UserSnapshot
