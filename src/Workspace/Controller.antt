-- ===== src/Workspace/Controller.antt =====
-- services/workspace-service/internal/workspace/controller.go. A handler returns its answer, or the
-- error that it records.
use distributed_workflow_sys.Prelude.{
  ℕ, String, some, none, true, List, ◌&&◌, length, ltb, eqb, ◌==◌, if◌then◌else◌,
}
use distributed_workflow_sys.Prelude.Act.{Act, Result, ◌>>=◌, ◌>>◌, pure, returned}
use distributed_workflow_sys.Domain.Workspace.{
  Workspace, WorkspaceCreateInput, WorkspaceInviteRequest, WorkspaceMemberResponse,
}
use distributed_workflow_sys.Http.{
  Codec, Request, Response, page_limit, cursor_of, send_response, require_id, bind_json,
}
use distributed_workflow_sys.Paging.{last_id}
use distributed_workflow_sys.Workspace.Service.{Service, create_workspace}
use distributed_workflow_sys.Workspace.Invite.{invite_user, accept_invitation}
use distributed_workflow_sys.Workspace.Members.{get_workspace_members}
use distributed_workflow_sys.Workspace.Lists.{
  workspace_id, get_workspaces_by_owner, get_workspaces_by_member,
}

-- The role of an invitation is MEMBER unless the request says otherwise.
unfoldable with_inviter : WorkspaceInviteRequest → Request → WorkspaceInviteRequest
with_inviter input c = record input {
  inviter_id = c.user_id;
  workspace_id = c.id;
  role = if input.role == "" then "MEMBER" else input.role;
}

module _ {W : Type 0} (service : Service W) (codec : Codec) where
  unfoldable post_workspace :
      Request → Result WorkspaceCreateInput → Act W (Response String Workspace)
  unfolding bind_json create_workspace send_response
  post_workspace c body = do
    input ← bind_json body
    result ← create_workspace service input c.user_id
    pure (send_response 201 true "Workspace created successfully!" result none)

  -- A full page has its last id, encoded, as the next cursor.
  unfoldable pub workspaces_cursor : ℕ → List Workspace → String
  workspaces_cursor limit workspaces =
      if ltb 0 (length workspaces) && eqb (length workspaces) limit
      then codec.url_encode (last_id workspace_id workspaces)
      else ""

  unfoldable pub list_workspaces_by_owner : Request → Act W (Response String (List Workspace))
  unfolding page_limit cursor_of workspaces_cursor send_response
  list_workspaces_by_owner c = do
    let limit = page_limit c.limit
    cursor ← returned (cursor_of codec c.cursor)
    workspaces ← get_workspaces_by_owner service c.user_id limit cursor
    pure (
        send_response 200 true "All workspace fetch successful" workspaces
          (some (workspaces_cursor limit workspaces)))

  unfoldable pub list_workspaces_by_member : Request → Act W (Response String (List Workspace))
  unfolding page_limit cursor_of workspaces_cursor send_response
  list_workspaces_by_member c = do
    let limit = page_limit c.limit
    cursor ← returned (cursor_of codec c.cursor)
    workspaces ← get_workspaces_by_member service c.user_id limit cursor
    pure (
        send_response 200 true "Member workspaces fetched successfully" workspaces
          (some (workspaces_cursor limit workspaces)))

  unfoldable invite : Request → Result WorkspaceInviteRequest → Act W (Response String String)
  unfolding bind_json require_id with_inviter invite_user send_response
  invite c body = do
    input ← bind_json body
    require_id "workspace_id is required" c
    invite_res ← invite_user service (with_inviter input c)
    pure (send_response 202 true "Invitation sending in progress" invite_res none)

  -- The body is the token of an invitation.
  unfoldable accept_invite_request : Request → Result String → Act W (Response String (Unit {0}))
  unfolding bind_json accept_invitation send_response
  accept_invite_request c body = do
    token ← bind_json body
    accept_invitation service token c.user_id
    pure (send_response 200 true "Successfully joined the workspace!" tt none)

  unfoldable get_workspace_members_handler :
      Request → Act W (Response String (List WorkspaceMemberResponse))
  unfolding require_id get_workspace_members send_response
  get_workspace_members_handler c = do
    require_id "Workspace ID is required" c
    members ← get_workspace_members service c.id c.user_id
    pure (send_response 200 true "Workspace members fetched successfully" members none)
