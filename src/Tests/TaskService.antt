-- ===== src/Tests/TaskService.antt =====
-- A task service that runs, for the examples: a workspace of `owner` in which `anna` is an
-- administrator and `bob` a member. The world is the list of the messages published.
use distributed_workflow_sys.Prelude.{
  String, some, List, [], ◌∷◌, ◌++◌, take, keep, ◌==◌, if◌then◌else◌,
}
use distributed_workflow_sys.Prelude.Act.{Act, ok, fail, no_rows}
use distributed_workflow_sys.Domain.Task.{TaskComment}
use distributed_workflow_sys.Domain.Workspace.{Workspace, WorkspaceRepository, WorkspaceCache}
use distributed_workflow_sys.Domain.Event.{Message}
use distributed_workflow_sys.Task.Service.{Service}
use distributed_workflow_sys.Tests.Database.{a_task, violation}

abbrev pub World : Type 0
World = List Message

abbrev pub workspace : Workspace
workspace = record {
  id = "ws";
  name = "Team";
  slug = "team";
  owner_id = "owner";
  description = "";
  created_at = 1;
}

abbrev pub a_comment : String → TaskComment
a_comment id = record {
  id = id;
  workspace_id = "ws";
  task_id = "1";
  user_id = "bob";
  content = "Done?";
  created_at = 1;
}

-- Two comments, and what follows each.
abbrev pub following : String → List TaskComment
following cursor =
    if cursor == ""
    then a_comment "c1" ∷ a_comment "c2" ∷ []
    else if cursor == "c1"
    then a_comment "c2" ∷ []
    else []

abbrev pub done : {W A : Type 0} → A → Act W A
done a w = (ok a, w)

abbrev pub down : {W A : Type 0} → Act W A
down w = (fail violation, w)

abbrev pub ws_repo : {W : Type 0} → WorkspaceRepository W
ws_repo = record {
  create = λ id ws. down;
  find_by_slug = λ a slug. down;
  get_by_owner_id = λ a id n c. down;
  get_by_member_id = λ a id n c. down;
  create_invite = λ id i. down;
  find_invite_by_token = λ a token. down;
  update_invite_status = λ a b status. down;
  add_member = λ id m. down;
  is_member = λ a b. down;
  find_by_id = λ a b. done (some workspace);
  get_members = λ id. down;
  get_member_role = λ ws user.
      if user == "anna" then done "ADMIN" else if user == "bob" then done "MEMBER" else λ w.
      (fail no_rows, w);
}

-- A cache that is down.
abbrev pub ws_cache : {W : Type 0} → WorkspaceCache W
ws_cache = record {
  add_owned_workspace_id = λ a b. down;
  add_joined_workspace_id = λ a b. down;
  set_workspace_meta = λ ws. down;
  get_workspace_meta = λ id. down;
  get_workspace_metas = λ ids. down;
  get_owned_workspace_ids = λ a n c. down;
  get_joined_workspace_ids = λ a n c. down;
  set_owned_workspace_ids = λ a ids. down;
  set_joined_workspace_ids = λ a ids. down;
  invalidate_owned_workspaces = λ a. down;
  invalidate_joined_workspaces = λ a. down;
  get_members = λ a. down;
  set_members = λ a ms. down;
  add_member = λ a m. down;
  invalidate_members = λ a. down;
  get_member_role = λ a b. down;
  set_member_role = λ a b role. down;
  invalidate_member_role = λ a b. down;
}

abbrev pub service_with : {W : Type 0} → WorkspaceCache W → (Message → Act W (Unit {0})) → Service W
service_with cache posted = record {
  task_repo = record {
    find_by_id = λ ws id. done (some (a_task id "LOW"));
    get_by_project_id_and_status_cursor =
        λ ws p st n c. done (keep (λ t. t.status == st) (a_task "1" "LOW" ∷ []));
    create_comment = λ ws c. done c;
    get_comments_by_task_id = λ ws id n c. done (take n (following c));
    bulk_create = λ ts. down;
    bulk_update = λ ts. down;
    bulk_update_status = λ us. down;
  };
  ws_repo = ws_repo;
  user_repo = record {
    upsert_user = λ u. down;
    bulk_upsert_users = λ us. down;
    find_by_id = λ id. down;
    find_by_email = λ email. down;
  };
  notification_writer = record { write_messages = posted };
  task_created_writer = record { write_messages = posted };
  task_updated_writer = record { write_messages = posted };
  task_status_updated_writer = record { write_messages = posted };
  task_cache = record {
    add_task = λ t. down;
    get_task_ids = λ p st n c. down;
    get_task_metas = λ ids. down;
    set_task_meta = λ t. down;
    set_column_cache = λ p st ts. down;
    update_task_meta = λ t. down;
    update_task_status = λ p id a b. down;
    invalidate_tasks = λ p. down;
  };
  ws_cache = cache;
  runtime = record {
    new_v7 = done "9";
    new_v4 = done "token";
    now = λ w. (5, w);
    marshal_task = λ t. ok t.title;
    marshal_status_update = λ u. ok u.status;
    marshal_notification = λ p. ok p.title;
  };
}

abbrev pub service : Service World
service = service_with ws_cache (λ m w. (ok tt, w ++ m ∷ []))
