-- ===== src/Project/Repository.antt =====
-- services/workspace-service/internal/project/reepository.go.
use distributed_workflow_sys.Prelude.{
  ℕ, String, Option, none, some, List, [], ◌∷◌, ◌==◌, if◌then◌else◌,
}
use distributed_workflow_sys.Prelude.Act.{Act, ◌>>=◌, pure}
use distributed_workflow_sys.Domain.Project.{Project, ProjectRepository}
use distributed_workflow_sys.Sql.{text, number}
use distributed_workflow_sys.Sql.Query.{
  Row, Db, select, insert, Condition, equal, below, column, desc, Select, Write, columns_of,
}
use distributed_workflow_sys.Sql.Scan.{text_in, time_in, scan_all, found_or_nil}

abbrev select_projects : List Condition → Select
select_projects conditions = record {
  columns = columns_of "" (
      "id" ∷ "workspace_id" ∷ "name" ∷ "description" ∷ "status" ∷ "created_by" ∷ "created_at" ∷ []);
  table = "projects";
  alias = "";
  joins = [];
  conditions = conditions;
  order = [];
  limit = none;
}

abbrev pub project_by_id : Select
project_by_id = select_projects (equal (column "" "id") 1 ∷ [])

abbrev pub projects_of_workspace : Select
projects_of_workspace = record (select_projects (equal (column "" "workspace_id") 1 ∷ [])) {
  order = (column "" "id", desc) ∷ [];
  limit = some 2;
}

abbrev pub projects_below : Select
projects_below =
    record (select_projects (equal (column "" "workspace_id") 1 ∷ below (column "" "id") 2 ∷ [])) {
      order = (column "" "id", desc) ∷ [];
      limit = some 3;
    }

abbrev pub create_project_row : Write
create_project_row =
    insert "projects"
      ("id" ∷ "workspace_id" ∷ "name" ∷ "description" ∷ "status" ∷ "created_by" ∷ [])
      ("id" ∷ "status" ∷ "created_at" ∷ [])

module _ {W : Type 0} where
  -- The struct tags of Project.
  unfoldable pub scan_project : Row → Act W Project
  scan_project row = do
    id ← text_in row "id"
    workspace_id ← text_in row "workspace_id"
    name ← text_in row "name"
    description ← text_in row "description"
    status ← text_in row "status"
    created_by ← text_in row "created_by"
    created_at ← time_in row "created_at"
    pure (record {
      id = id;
      workspace_id = workspace_id;
      name = name;
      description = description;
      status = status;
      created_by = created_by;
      created_at = created_at;
    })

module _ {W : Type 0} (db : Db W) where
  unfoldable pub create : String → Project → Act W Project
  create workspace_id p = do
    row ← db.query_row_context create_project_row (
        text p.id
        ∷ text p.workspace_id
        ∷ text p.name
        ∷ text p.description
        ∷ text p.status
        ∷ text p.created_by
        ∷ [])
    id ← text_in row "id"
    status ← text_in row "status"
    created_at ← time_in row "created_at"
    pure (record p { id = id; status = status; created_at = created_at })

  unfoldable pub get_by_id : String → Act W (Option Project)
  unfolding scan_project
  get_by_id id =
      found_or_nil (db.get_context (select project_by_id) (text id ∷ []) >>= scan_project)

  unfoldable pub get_by_workspace_id : String → ℕ → String → Act W (List Project)
  unfolding scan_project
  get_by_workspace_id workspace_id limit cursor =
      if cursor == ""
      then (db.select_context (select projects_of_workspace) (text workspace_id ∷ number limit ∷ [])
          >>= scan_all scan_project)
      else (db.select_context (select projects_below)
            (text workspace_id ∷ text cursor ∷ number limit ∷ [])
          >>= scan_all scan_project)

  abbrev pub repository : ProjectRepository W
  repository = record {
    create = create;
    get_by_id = get_by_id;
    get_by_workspace_id = get_by_workspace_id;
  }
