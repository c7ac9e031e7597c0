-- ===== src/Task/Controller.antt =====
-- services/workspace-service/internal/task/controller.go. A handler returns its answer, or the
-- error that it records. Upper case and trimming of a text are parameters.
pub mod Guarded
use Prim.Native.Char.{code}
use Prim.Native.String.{String as Text, ◌++◌ as append}
use distributed_workflow_sys.Prelude.{
  String, some, none, Bool, true, false, List, [], ◌∷◌, ◌++◌, map, eqb, if◌then◌else◌,
}
use distributed_workflow_sys.Prelude.Act.{Act, Result, ◌>>=◌, ◌>>◌, pure, returned}
use distributed_workflow_sys.Domain.Task.{
  Task, TaskComment, TaskCreateInput, TaskUpdateInput, CommentCreateInput,
}
use distributed_workflow_sys.Http.{
  Codec, Request, Response, page_limit, cursor_of, encode_cursor, send_response, require_id,
  bind_json,
}
use distributed_workflow_sys.Task.Service.{Service}
use distributed_workflow_sys.Task.Service.Create.{create_task}
use distributed_workflow_sys.Task.Service.Update.{update_full_task, update_task_status}
use distributed_workflow_sys.Task.Service.Comments.{add_comment, get_task_comments}
use distributed_workflow_sys.Task.Service.Listing.{get_tasks_by_project}

-- `strings.ToUpper` and `strings.TrimSpace`.
pub record Texts : Type 0 where
  pub to_upper : String → String
  pub trim_space : String → String

unfoldable contains_comma : String → Bool
contains_comma String.[] = false
contains_comma (String.◌∷◌ c s) = if eqb (code c) b',' then true else contains_comma s

abbrev add_char : String → List String → List String
add_char c [] = c ∷ []
add_char c (part ∷ parts) = append c part ∷ parts

-- `strings.Split(s, ",")`.
unfoldable split_comma : String → List String
split_comma String.[] = "" ∷ []
split_comma (String.◌∷◌ c s) =
    let parts = split_comma s in
    if eqb (code c) b',' then "" ∷ parts else add_char (String.◌∷◌ c String.[]) parts

module _ (texts : Texts) where
  abbrev normal_status : String → String
  normal_status s = texts.to_upper (texts.trim_space s)

  -- The filter of a request, whose parameters may each hold several statuses.
  unfoldable pub statuses_of : List String → List String
  unfolding contains_comma split_comma
  statuses_of [] = []
  statuses_of (s ∷ raw_statuses) =
      (if contains_comma s then map normal_status (split_comma s) else normal_status s ∷ [])
      ++ statuses_of raw_statuses

module _ {W : Type 0} (service : Service W) (codec : Codec) (texts : Texts) where
  unfoldable pub post_task : Request → Result TaskCreateInput → Act W (Response String Task)
  unfolding require_id bind_json send_response
  post_task c body = do
    require_id "Workspace ID is required" c
    input ← bind_json body
    result ← create_task service c.id c.project_id input c.user_id
    pure (send_response 201 true "Task created successfully!" result none)

  abbrev encoded : String × (List Task × String) → String × String
  encoded (st, (tasks, nc)) = (st, encode_cursor codec nc)

  abbrev tasks_of : String × (List Task × String) → String × List Task
  tasks_of (st, (tasks, nc)) = (st, tasks)

  -- The meta data are the encoded next cursor of each status.
  unfoldable list_tasks :
      Request → Act W (Response (List (String × String)) (List (String × List Task)))
  unfolding require_id page_limit cursor_of statuses_of get_tasks_by_project encode_cursor
      send_response
  list_tasks c = do
    require_id "Workspace ID is required" c
    cursor ← returned (cursor_of codec c.cursor)
    columns ←
        get_tasks_by_project service c.id c.project_id c.user_id (statuses_of texts c.statuses)
          (page_limit c.limit) cursor
    pure (
        send_response 200 true "Tasks fetched successfully" (map tasks_of columns)
          (some (map encoded columns)))

  unfoldable pub update_task : Request → Result TaskUpdateInput → Act W (Response String Task)
  unfolding require_id bind_json send_response
  update_task c body = do
    require_id "Workspace ID is required" c
    input ← bind_json body
    result ← update_full_task service c.id c.task_id input c.user_id
    pure (send_response 200 true "Task updated successfully" result none)

  -- The body is the new status.
  unfoldable pub update_status : Request → Result String → Act W (Response String (Unit {0}))
  unfolding require_id bind_json send_response
  update_status c body = do
    require_id "Workspace ID is required" c
    status ← bind_json body
    update_task_status service c.id c.task_id status c.user_id
    pure (send_response 200 true "Task status updated successfully" tt none)

  unfoldable pub post_comment :
      Request → Result CommentCreateInput → Act W (Response String TaskComment)
  unfolding require_id bind_json send_response
  post_comment c body = do
    require_id "Workspace ID is required" c
    input ← bind_json body
    result ← add_comment service c.id c.task_id input c.user_id
    pure (send_response 201 true "Comment added successfully" result none)

  unfoldable get_comments : Request → Act W (Response String (List TaskComment))
  unfolding require_id page_limit cursor_of encode_cursor get_task_comments send_response
  get_comments c = do
    require_id "Workspace ID is required" c
    cursor ← returned (cursor_of codec c.cursor)
    page ← get_task_comments service c.id c.task_id c.user_id (page_limit c.limit) cursor
    pure (
        send_response 200 true "Comments fetched successfully" page.0
          (some (encode_cursor codec page.1)))
