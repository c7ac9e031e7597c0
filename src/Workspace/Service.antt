-- ===== src/Workspace/Service.antt =====
-- services/workspace-service/internal/workspace/service.go: the service and CreateWorkspace.
-- Times are counted in nanoseconds.
use distributed_workflow_sys.Prelude.{ℕ, String, List, [], ◌∷◌, joined}
use distributed_workflow_sys.Prelude.Act.{
  Act, Error, Result, ok, fail, ◌>>=◌, ◌>>◌, pure, raise, attempt, ignore, relabel, error_text,
}
use distributed_workflow_sys.Apperror.{bad_request, internal_server}
use distributed_workflow_sys.Domain.Workspace.{
  Workspace, WorkspaceCreateInput, WorkspaceMemberResponse, WorkspaceRepository, WorkspaceCache,
}
use distributed_workflow_sys.Domain.User.{UserRepository}
use distributed_workflow_sys.Domain.Event.{Writer, Runtime, NotificationEventPayload}

-- `execute_workflow` is the Temporal client's start of InviteUserWorkflow, by its workflow id and
-- the email, role and token; `sort_by_joined` is what sort.Slice makes of a list of members.
pub record Service (W : Type 0) : Type 0 where
  pub ws_repo : WorkspaceRepository W
  pub user_repo : UserRepository W
  pub execute_workflow : String → String → String → String → Act W (Unit {0})
  pub notification_writer : Writer W
  pub frontend_url : String
  pub cache : WorkspaceCache W
  pub runtime : Runtime W
  pub sort_by_joined : List WorkspaceMemberResponse → List WorkspaceMemberResponse

unfoldable pub id_failure : String → Error → Error
id_failure what err =
    internal_server (joined ("failed to generate " ∷ what ∷ " ID: " ∷ error_text err ∷ []))

module _ {W : Type 0} (s : Service W) where
  abbrev pub clock : Act W ℕ
  clock w = let (now, w') = s.runtime.now w in (ok now, w')

  unfoldable pub publish : NotificationEventPayload → String → Result String → Act W (Unit {0})
  publish payload key (ok json) =
      ignore (s.notification_writer.write_messages (record { key = key; value = json }))
  publish payload key (fail e) = pure tt

  unfoldable pub send_notification : NotificationEventPayload → String → Act W (Unit {0})
  unfolding publish
  send_notification payload key = publish payload key (s.runtime.marshal_notification payload)

  -- A workspace with the slug exists only if the lookup returned one.
  unfoldable free_slug : Result Workspace → Act W (Unit {0})
  free_slug (ok ws) = raise (bad_request "workspace with this slug already exists")
  free_slug (fail e) = pure tt

  unfoldable pub create_workspace : WorkspaceCreateInput → String → Act W Workspace
  unfolding free_slug id_failure
  create_workspace input owner_id = do
    exists ← attempt (s.ws_repo.find_by_slug "" input.slug)
    free_slug exists
    ws_id ← relabel (id_failure "workspace") s.runtime.new_v7
    let ws : Workspace = record {
      id = ws_id;
      name = input.name;
      slug = input.slug;
      owner_id = owner_id;
      description = input.description;
      created_at = 0;
    }
    s.ws_repo.create ws_id ws
    ignore (s.cache.set_workspace_meta ws)
    ignore (s.cache.add_owned_workspace_id owner_id ws_id)
    pure ws
