-- ===== src/Project/Controller.antt =====
-- services/workspace-service/internal/project/controller.go. A handler returns its answer, or the
-- error that it records.
use distributed_workflow_sys.Prelude.{String, some, none, true, List}
use distributed_workflow_sys.Prelude.Act.{Act, Result, ◌>>=◌, ◌>>◌, pure, returned}
use distributed_workflow_sys.Domain.Project.{Project, ProjectCreateInput}
use distributed_workflow_sys.Http.{
  Codec, Request, Response, page_limit, cursor_of, encode_cursor, send_response, require_id,
  bind_json,
}
use distributed_workflow_sys.Project.Service.{Service, create_project, get_projects_by_workspace}

module _ {W : Type 0} (service : Service W) (codec : Codec) where
  unfoldable post_project : Request → Result ProjectCreateInput → Act W (Response String Project)
  unfolding require_id bind_json create_project send_response
  post_project c body = do
    require_id "Workspace ID is required" c
    input ← bind_json body
    result ← create_project service c.id input c.user_id
    pure (send_response 201 true "Project created successfully!" result none)

  -- The meta data are the encoded next cursor.
  unfoldable pub list_projects : Request → Act W (Response String (List Project))
  unfolding require_id page_limit cursor_of encode_cursor send_response
  list_projects c = do
    require_id "Workspace ID is required" c
    let limit = page_limit c.limit
    cursor ← returned (cursor_of codec c.cursor)
    page ← get_projects_by_workspace service c.id c.user_id limit cursor
    pure (
        send_response 200 true "Projects fetched successfully" page.0
          (some (encode_cursor codec page.1)))
