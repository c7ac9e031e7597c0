-- ===== src/Domain/Workspace.antt =====
-- services/workspace-service/internal/domain/workspace.go.
use distributed_workflow_sys.Prelude.{ℕ, String, List, Option, Bool}
use distributed_workflow_sys.Prelude.Act.{Act}

pub record WorkspaceCreateInput : Type 0 where
  pub name : String
  pub slug : String
  pub description : String

pub record WorkspaceInviteRequest : Type 0 where
  pub workspace_id : String
  pub email : String
  pub role : String
  pub inviter_id : String
  pub token : String

pub record WorkspaceMemberResponse : Type 0 where
  pub user_id : String
  pub full_name : String
  pub email : String
  pub role : String
  pub joined_at : ℕ

pub record Workspace : Type 0 where
  pub id : String
  pub name : String
  pub slug : String
  pub owner_id : String
  pub description : String
  pub created_at : ℕ

pub record WorkspaceInvitation : Type 0 where
  pub id : String
  pub workspace_id : String
  pub inviter_id : String
  pub email : String
  pub role : String
  pub token : String
  pub status : String
  pub expires_at : ℕ
  pub created_at : ℕ

pub record WorkspaceMember : Type 0 where
  pub id : String
  pub workspace_id : String
  pub user_id : String
  pub role : String
  pub joined_at : ℕ

pub record WorkspaceRepository (W : Type 0) : Type 0 where
  pub create : String → Workspace → Act W (Unit {0})
  pub find_by_slug : String → String → Act W Workspace
  pub get_by_owner_id : String → String → ℕ → String → Act W (List Workspace)
  pub get_by_member_id : String → String → ℕ → String → Act W (List Workspace)
  pub create_invite : String → WorkspaceInvitation → Act W (Unit {0})
  pub find_invite_by_token : String → String → Act W WorkspaceInvitation
  pub update_invite_status : String → String → String → Act W (Unit {0})
  pub add_member : String → WorkspaceMember → Act W (Unit {0})
  pub is_member : String → String → Act W Bool
  pub find_by_id : String → String → Act W (Option Workspace)
  pub get_members : String → Act W (List WorkspaceMemberResponse)
  pub get_member_role : String → String → Act W String

-- A lookup that returns a value and a flag `exists` returns `none` where the flag is false.
pub record WorkspaceCache (W : Type 0) : Type 0 where
  pub add_owned_workspace_id : String → String → Act W (Unit {0})
  pub add_joined_workspace_id : String → String → Act W (Unit {0})
  pub set_workspace_meta : Workspace → Act W (Unit {0})
  pub get_workspace_meta : String → Act W (Option Workspace)
  pub get_workspace_metas : List String → Act W (List Workspace × List String)
  pub get_owned_workspace_ids : String → ℕ → String → Act W (Option (List String))
  pub get_joined_workspace_ids : String → ℕ → String → Act W (Option (List String))
  pub set_owned_workspace_ids : String → List String → Act W (Unit {0})
  pub set_joined_workspace_ids : String → List String → Act W (Unit {0})
  pub invalidate_owned_workspaces : String → Act W (Unit {0})
  pub invalidate_joined_workspaces : String → Act W (Unit {0})
  pub get_members : String → Act W (Option (List WorkspaceMemberResponse))
  pub set_members : String → List WorkspaceMemberResponse → Act W (Unit {0})
  pub add_member : String → WorkspaceMemberResponse → Act W (Unit {0})
  pub invalidate_members : String → Act W (Unit {0})
  pub get_member_role : String → String → Act W (Option String)
  pub set_member_role : String → String → String → Act W (Unit {0})
  pub invalidate_member_role : String → String → Act W (Unit {0})
