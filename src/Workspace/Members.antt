-- ===== src/Workspace/Members.antt =====
-- GetWorkspaceMembers of services/workspace-service/internal/workspace/service.go.
use distributed_workflow_sys.Prelude.{String, Option, none, some, List, ◌==◌, if◌then◌else◌}
use distributed_workflow_sys.Prelude.Act.{
  Act, Result, ok, fail, ◌>>=◌, ◌>>◌, pure, raise, attempt, ignore,
}
use distributed_workflow_sys.Apperror.{forbidden, not_found}
use distributed_workflow_sys.Domain.Workspace.{Workspace, WorkspaceMemberResponse}
use distributed_workflow_sys.Workspace.Service.{Service}

module _ {W : Type 0} (s : Service W) where
  -- GetWorkspaceMembers: the role of a user who does not own the workspace; an error leaves it
  -- empty.
  unfoldable remember_role : String → String → Result String → Act W String
  remember_role workspace_id user_id (ok role) = do
    ignore (s.cache.set_member_role workspace_id user_id role)
    pure role
  remember_role workspace_id user_id (fail e) = pure ""

  unfoldable role_in : String → String → Result (Option String) → Act W String
  unfolding remember_role
  role_in workspace_id user_id (ok (some role)) = pure role
  role_in workspace_id user_id (ok none) =
      attempt (s.ws_repo.get_member_role workspace_id user_id)
      >>= remember_role workspace_id user_id
  role_in workspace_id user_id (fail e) =
      attempt (s.ws_repo.get_member_role workspace_id user_id)
      >>= remember_role workspace_id user_id

  unfoldable role_of : Workspace → String → String → Act W String
  unfolding role_in
  role_of ws workspace_id user_id =
      if ws.owner_id == user_id
      then pure "OWNER"
      else (attempt (s.cache.get_member_role workspace_id user_id) >>= role_in workspace_id user_id)

  unfoldable fetch_members : String → Act W (List WorkspaceMemberResponse)
  fetch_members workspace_id = do
    members ← s.ws_repo.get_members workspace_id
    ignore (s.cache.set_members workspace_id members)
    pure members

  unfoldable members_or_fetch :
      String → Result (Option (List WorkspaceMemberResponse)) → Act W (List WorkspaceMemberResponse)
  unfolding fetch_members
  members_or_fetch workspace_id (ok (some members)) = pure (s.sort_by_joined members)
  members_or_fetch workspace_id (ok none) = fetch_members workspace_id
  members_or_fetch workspace_id (fail e) = fetch_members workspace_id

  unfoldable show_members : String → String → Act W (List WorkspaceMemberResponse)
  unfolding members_or_fetch
  show_members workspace_id role =
      if role == ""
      then raise (forbidden "You do not have permission to view this workspace's members")
      else (attempt (s.cache.get_members workspace_id) >>= members_or_fetch workspace_id)

  unfoldable existing : Option Workspace → Act W Workspace
  existing none = raise (not_found "Workspace not found")
  existing (some ws) = pure ws

  unfoldable pub get_workspace_members : String → String → Act W (List WorkspaceMemberResponse)
  unfolding existing role_of show_members
  get_workspace_members workspace_id user_id = do
    found ← s.ws_repo.find_by_id workspace_id workspace_id
    ws ← existing found
    role ← role_of ws workspace_id user_id
    show_members workspace_id role
