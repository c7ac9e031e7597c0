-- ===== src/Task/Service.antt =====
-- services/workspace-service/internal/task/service.go: the service and what its methods share.
-- The methods stand in the children; each returns its value or its error with the world.
pub mod Create
pub mod Update
pub mod Comments
pub mod Listing
use distributed_workflow_sys.Prelude.{
  ℕ, String, Option, none, some, Bool, List, [], ◌∷◌, any, ◌==◌, not, ◌&&◌, if◌then◌else◌,
}
use distributed_workflow_sys.Prelude.Act.{
  Act, Error, app, no_rows, other, Result, ok, fail, ◌>>=◌, ◌>>◌, pure, raise, attempt, ignore,
}
use distributed_workflow_sys.Apperror.{forbidden, not_found}
use distributed_workflow_sys.Domain.Task.{Task, TaskStatusUpdate, TaskRepository, TaskCache}
use distributed_workflow_sys.Domain.Workspace.{
  Workspace, WorkspaceMemberResponse, WorkspaceRepository, WorkspaceCache,
}
use distributed_workflow_sys.Domain.User.{UserRepository}
use distributed_workflow_sys.Domain.Event.{Writer, Runtime, NotificationEventPayload, Message}

pub record Service (W : Type 0) : Type 0 where
  pub task_repo : TaskRepository W
  pub ws_repo : WorkspaceRepository W
  pub user_repo : UserRepository W
  pub notification_writer : Writer W
  pub task_created_writer : Writer W
  pub task_updated_writer : Writer W
  pub task_status_updated_writer : Writer W
  pub task_cache : TaskCache W
  pub ws_cache : WorkspaceCache W
  pub runtime : Runtime W

abbrev pub not_a_member : Error
not_a_member = forbidden "You are not a member of this workspace"

abbrev pub not_enough : Error
not_enough = forbidden "You do not have enough permissions for this action"

module _ {W : Type 0} (s : Service W) where
  -- checkAccess, step 1: the workspace from the database, on a cache miss or error.
  unfoldable pub found_workspace : Option Workspace → Act W Workspace
  found_workspace none = raise (not_found "Workspace not found")
  found_workspace (some ws) = do ignore (s.ws_cache.set_workspace_meta ws); pure ws

  unfoldable pub fetch_workspace : String → Act W Workspace
  unfolding found_workspace
  fetch_workspace workspace_id = do
    found ← s.ws_repo.find_by_id workspace_id workspace_id
    found_workspace found

  unfoldable pub workspace_or_fetch : String → Result (Option Workspace) → Act W Workspace
  unfolding fetch_workspace
  workspace_or_fetch workspace_id (ok (some ws)) = pure ws
  workspace_or_fetch workspace_id (ok none) = fetch_workspace workspace_id
  workspace_or_fetch workspace_id (fail e) = fetch_workspace workspace_id

  -- Step 2: the member's role from the database. An empty role is cached for a stranger.
  unfoldable pub role_or_refuse : String → String → Result String → Act W String
  role_or_refuse workspace_id user_id (ok role) = do
    ignore (s.ws_cache.set_member_role workspace_id user_id role)
    pure role
  role_or_refuse workspace_id user_id (fail no_rows) = do
    ignore (s.ws_cache.set_member_role workspace_id user_id "")
    raise not_a_member
  role_or_refuse workspace_id user_id (fail (app e)) = raise (app e)
  role_or_refuse workspace_id user_id (fail (other e)) = raise (other e)

  unfoldable pub fetch_role : String → String → Act W String
  unfolding role_or_refuse
  fetch_role workspace_id user_id = do
    r ← attempt (s.ws_repo.get_member_role workspace_id user_id)
    role_or_refuse workspace_id user_id r

  unfoldable pub role_or_fetch : String → String → Result (Option String) → Act W String
  unfolding fetch_role
  role_or_fetch workspace_id user_id (ok (some role)) =
      if role == "" then raise not_a_member else pure role
  role_or_fetch workspace_id user_id (ok none) = fetch_role workspace_id user_id
  role_or_fetch workspace_id user_id (fail e) = fetch_role workspace_id user_id

  -- The loop over the allowed roles; with none given any member may pass.
  unfoldable pub check_role : List String → String → Act W (Unit {0})
  check_role [] role = pure tt
  check_role (r ∷ allowed_roles) role =
      if any (λ a. a == role) (r ∷ allowed_roles) then pure tt else raise not_enough

  unfoldable pub check_member : String → String → List String → Act W (Unit {0})
  unfolding role_or_fetch check_role
  check_member workspace_id user_id allowed_roles = do
    cached_role ← attempt (s.ws_cache.get_member_role workspace_id user_id)
    role ← role_or_fetch workspace_id user_id cached_role
    check_role allowed_roles role

  unfoldable pub check_access : String → String → List String → Act W (Unit {0})
  unfolding workspace_or_fetch check_member
  check_access workspace_id user_id allowed_roles = do
    cached ← attempt (s.ws_cache.get_workspace_meta workspace_id)
    ws ← workspace_or_fetch workspace_id cached
    if ws.owner_id == user_id then pure tt else check_member workspace_id user_id allowed_roles

  -- getTaskByID: the cached task if it is of this workspace, else the stored one.
  unfoldable pub remember_task : Option Task → Act W (Option Task)
  remember_task none = pure none
  remember_task (some t) = do ignore (s.task_cache.set_task_meta t); pure (some t)

  unfoldable pub fetch_task : String → String → Act W (Option Task)
  unfolding remember_task
  fetch_task workspace_id task_id = s.task_repo.find_by_id workspace_id task_id >>= remember_task

  unfoldable pub task_or_fetch :
      String → String → Result (List Task × List String) → Act W (Option Task)
  unfolding fetch_task
  task_or_fetch workspace_id task_id (ok (t ∷ tasks, [])) =
      if t.workspace_id == workspace_id then pure (some t) else fetch_task workspace_id task_id
  task_or_fetch workspace_id task_id (ok ([], missing)) = fetch_task workspace_id task_id
  task_or_fetch workspace_id task_id (ok (t ∷ tasks, m ∷ missing)) = fetch_task workspace_id task_id
  task_or_fetch workspace_id task_id (fail e) = fetch_task workspace_id task_id

  unfoldable pub get_task_by_id : String → String → Act W (Option Task)
  unfolding task_or_fetch
  get_task_by_id workspace_id task_id = do
    cached ← attempt (s.task_cache.get_task_metas (task_id ∷ []))
    task_or_fetch workspace_id task_id cached

  -- json.Marshal and WriteMessages; an error of either is returned.
  unfoldable pub publish : Writer W → String → Result String → Act W (Unit {0})
  publish writer key (ok json) = writer.write_messages (record { key = key; value = json })
  publish writer key (fail e) = raise e

  unfoldable pub send_task_created : Task → Act W (Unit {0})
  unfolding publish
  send_task_created t = publish s.task_created_writer t.id (s.runtime.marshal_task t)

  unfoldable pub send_task_updated : Task → Act W (Unit {0})
  unfolding publish
  send_task_updated t = publish s.task_updated_writer t.id (s.runtime.marshal_task t)

  unfoldable pub send_task_status_updated : TaskStatusUpdate → Act W (Unit {0})
  unfolding publish
  send_task_status_updated update =
      publish s.task_status_updated_writer update.task_id (s.runtime.marshal_status_update update)

  -- sendNotification only logs its errors.
  unfoldable pub send_notification : NotificationEventPayload → String → Act W (Unit {0})
  unfolding publish
  send_notification payload key =
      ignore (publish s.notification_writer key (s.runtime.marshal_notification payload))

  -- The name of an assignee: from the cached members, else from the user table, else none.
  unfoldable member_name : String → List WorkspaceMemberResponse → Option String
  member_name assignee_id [] = none
  member_name assignee_id (m ∷ members) =
      if m.user_id == assignee_id then some m.full_name else member_name assignee_id members

  unfoldable cached_name : String → Result (Option (List WorkspaceMemberResponse)) → Option String
  unfolding member_name
  cached_name assignee_id (ok (some members)) = member_name assignee_id members
  cached_name assignee_id (ok none) = none
  cached_name assignee_id (fail e) = none

  unfoldable pub find_assignee_name : String → String → Act W (Option String)
  unfolding cached_name
  find_assignee_name workspace_id assignee_id = do
    members ← attempt (s.ws_cache.get_members workspace_id)
    elim (cached_name assignee_id members) [
      | some name ↦ pure (some name)
      | none ↦ do
        u ← attempt (s.user_repo.find_by_id assignee_id)
        elim u [ fail e ↦ pure none | ok user ↦ pure (some user.full_name) ]
    ]
