-- ===== src/Workspace/Repository.antt =====
-- services/workspace-service/internal/workspace/repository.go.
pub mod Statements
pub mod Invites
pub mod Membership
pub mod Apart
pub mod Acceptance
use distributed_workflow_sys.Prelude.{ℕ, String, Option, Bool, List, [], ◌∷◌, ◌==◌, if◌then◌else◌}
use distributed_workflow_sys.Prelude.Act.{Act, ◌>>=◌, ◌>>◌, pure, returned}
use distributed_workflow_sys.Domain.Workspace.{
  Workspace, WorkspaceInvitation, WorkspaceMember, WorkspaceMemberResponse, WorkspaceRepository,
}
use distributed_workflow_sys.Sql.{text, time, number}
use distributed_workflow_sys.Sql.Query.{Row, Db, select, union_all, exists}
use distributed_workflow_sys.Sql.Scan.{text_in, time_in, as_bool, scan_all, found_or_nil}
use distributed_workflow_sys.Workspace.Repository.Statements.{
  workspace_by_id, workspace_by_slug, workspace_by_slug_and_id, owned_by, owned_by_below, joined_by,
  joined_by_below, invite_by_token, invite_by_token_and_workspace, member_exists, role_of_member,
  owner_as_member, members_of, create_workspace_row, create_invite_row, update_invite_row,
  add_member_row,
}

module _ {W : Type 0} where
  -- The struct tags of Workspace, WorkspaceInvitation and WorkspaceMemberResponse.
  unfoldable pub scan_workspace : Row → Act W Workspace
  scan_workspace row = do
    id ← text_in row "id"
    name ← text_in row "name"
    slug ← text_in row "slug"
    owner_id ← text_in row "owner_id"
    description ← text_in row "description"
    created_at ← time_in row "created_at"
    pure (record {
      id = id;
      name = name;
      slug = slug;
      owner_id = owner_id;
      description = description;
      created_at = created_at;
    })

  unfoldable pub scan_invite : Row → Act W WorkspaceInvitation
  scan_invite row = do
    id ← text_in row "id"
    workspace_id ← text_in row "workspace_id"
    inviter_id ← text_in row "inviter_id"
    email ← text_in row "email"
    role ← text_in row "role"
    token ← text_in row "token"
    status ← text_in row "status"
    expires_at ← time_in row "expires_at"
    created_at ← time_in row "created_at"
    pure (record {
      id = id;
      workspace_id = workspace_id;
      inviter_id = inviter_id;
      email = email;
      role = role;
      token = token;
      status = status;
      expires_at = expires_at;
      created_at = created_at;
    })

  unfoldable pub scan_member : Row → Act W WorkspaceMemberResponse
  scan_member row = do
    user_id ← text_in row "user_id"
    full_name ← text_in row "full_name"
    email ← text_in row "email"
    role ← text_in row "role"
    joined_at ← time_in row "joined_at"
    pure (record {
      user_id = user_id;
      full_name = full_name;
      email = email;
      role = role;
      joined_at = joined_at;
    })

module _ {W : Type 0} (db : Db W) where
  unfoldable pub create : String → Workspace → Act W (Unit {0})
  create workspace_id ws =
      db.query_row_context create_workspace_row
        (text ws.id ∷ text ws.name ∷ text ws.slug ∷ text ws.owner_id ∷ text ws.description ∷ [])
      >>= λ row. text_in row "id" >> pure tt

  unfoldable pub find_by_slug : String → String → Act W Workspace
  unfolding scan_workspace
  find_by_slug workspace_id slug =
      if workspace_id == ""
      then (db.get_context (select workspace_by_slug) (text slug ∷ []) >>= scan_workspace)
      else (db.get_context (select workspace_by_slug_and_id) (text slug ∷ text workspace_id ∷ [])
          >>= scan_workspace)

  unfoldable pub get_by_owner_id : String → String → ℕ → String → Act W (List Workspace)
  unfolding scan_workspace
  get_by_owner_id workspace_id owner_id limit cursor =
      if cursor == ""
      then (db.select_context (select owned_by) (text owner_id ∷ number limit ∷ [])
          >>= scan_all scan_workspace)
      else (db.select_context (select owned_by_below)
            (text owner_id ∷ text cursor ∷ number limit ∷ [])
          >>= scan_all scan_workspace)

  unfoldable pub create_invite : String → WorkspaceInvitation → Act W (Unit {0})
  create_invite workspace_id invite =
      db.query_row_context create_invite_row (
        text invite.id
        ∷ text invite.workspace_id
        ∷ text invite.inviter_id
        ∷ text invite.email
        ∷ text invite.role
        ∷ text invite.token
        ∷ text invite.status
        ∷ time invite.expires_at
        ∷ [])
      >>= λ row. text_in row "id" >> time_in row "created_at" >> pure tt

  unfoldable pub find_invite_by_token : String → String → Act W WorkspaceInvitation
  unfolding scan_invite
  find_invite_by_token workspace_id token =
      if workspace_id == ""
      then (db.get_context (select invite_by_token) (text token ∷ []) >>= scan_invite)
      else (db.get_context (select invite_by_token_and_workspace)
            (text token ∷ text workspace_id ∷ [])
          >>= scan_invite)

  unfoldable pub update_invite_status : String → String → String → Act W (Unit {0})
  update_invite_status workspace_id id status =
      db.exec_context update_invite_row (text status ∷ text id ∷ text workspace_id ∷ [])

  unfoldable pub is_member : String → String → Act W Bool
  is_member workspace_id user_id = do
    row ← db.get_context (exists member_exists) (text workspace_id ∷ text user_id ∷ [])
    returned (as_bool (row "exists"))

  unfoldable pub add_member : String → WorkspaceMember → Act W (Unit {0})
  add_member workspace_id member =
      db.exec_context add_member_row
        (text member.id ∷ text member.workspace_id ∷ text member.user_id ∷ text member.role ∷ [])

  unfoldable pub get_by_member_id : String → String → ℕ → String → Act W (List Workspace)
  unfolding scan_workspace
  get_by_member_id workspace_id user_id limit cursor =
      if cursor == ""
      then (db.select_context (select joined_by) (text user_id ∷ number limit ∷ [])
          >>= scan_all scan_workspace)
      else (db.select_context (select joined_by_below)
            (text user_id ∷ text cursor ∷ number limit ∷ [])
          >>= scan_all scan_workspace)

  unfoldable pub find_by_id : String → String → Act W (Option Workspace)
  unfolding scan_workspace
  find_by_id workspace_id id =
      found_or_nil (db.get_context (select workspace_by_id) (text id ∷ []) >>= scan_workspace)

  unfoldable pub get_members : String → Act W (List WorkspaceMemberResponse)
  unfolding scan_member
  get_members workspace_id =
      db.select_context (union_all owner_as_member members_of "joined_at") (text workspace_id ∷ [])
      >>= scan_all scan_member

  unfoldable pub get_member_role : String → String → Act W String
  get_member_role workspace_id user_id = do
    row ← db.get_context (select role_of_member) (text workspace_id ∷ text user_id ∷ [])
    text_in row "role"

  abbrev pub repository : WorkspaceRepository W
  repository = record {
    create = create;
    find_by_slug = find_by_slug;
    get_by_owner_id = get_by_owner_id;
    get_by_member_id = get_by_member_id;
    create_invite = create_invite;
    find_invite_by_token = find_invite_by_token;
    update_invite_status = update_invite_status;
    add_member = add_member;
    is_member = is_member;
    find_by_id = find_by_id;
    get_members = get_members;
    get_member_role = get_member_role;
  }
