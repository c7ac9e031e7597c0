-- ===== src/Task/Repository/Queries/Statements.antt =====
-- The texts of the statements of services/workspace-service/internal/task/repository.go, as their
-- parts.
use distributed_workflow_sys.Prelude.{ℕ, String, Option, none, some, List, [], ◌∷◌, ◌++◌}
use distributed_workflow_sys.Sql.Query.{
  Expr, column, Condition, equal, below, above, Join, left, Direction, asc, desc, Select, Write,
  insert, update, columns_of,
}

abbrev task_columns : List (Expr × String)
task_columns =
    columns_of "t" (
      "id" ∷ "workspace_id" ∷ "project_id" ∷ "title" ∷ "description" ∷ "status" ∷ "priority"
      ∷ "assignee_id" ∷ [])
    ++ (column "u" "full_name", "assignee_name") ∷ columns_of "t" ("deadline" ∷ "created_at" ∷ [])

-- `FROM tasks t LEFT JOIN users u ON t.assignee_id = u.id`.
abbrev assignee : Join
assignee = record {
  kind = left;
  table = "users";
  alias = "u";
  on = (column "t" "assignee_id", column "u" "id");
}

abbrev select_tasks : List Condition → List (Expr × Direction) → Option ℕ → Select
select_tasks conditions order limit = record {
  columns = task_columns;
  table = "tasks";
  alias = "t";
  joins = assignee ∷ [];
  conditions = conditions;
  order = order;
  limit = limit;
}

abbrev pub task_by_id : Select
task_by_id =
    select_tasks (equal (column "t" "id") 1 ∷ equal (column "t" "workspace_id") 2 ∷ []) [] none

abbrev pub tasks_of_project : Select
tasks_of_project =
    select_tasks (equal (column "t" "project_id") 1 ∷ equal (column "t" "workspace_id") 2 ∷ [])
      ((column "t" "created_at", desc) ∷ []) none

abbrev newest_first : List (Expr × Direction)
newest_first = (column "t" "created_at", desc) ∷ (column "t" "id", desc) ∷ []

abbrev in_column : List Condition
in_column =
    equal (column "t" "project_id") 1
    ∷ equal (column "t" "status") 2
    ∷ equal (column "t" "workspace_id") 3
    ∷ []

abbrev pub tasks_of_column : Select
tasks_of_column = select_tasks in_column newest_first (some 4)

abbrev pub tasks_below : Select
tasks_below = select_tasks (in_column ++ below (column "t" "id") 4 ∷ []) newest_first (some 5)

abbrev select_comments : List Condition → Option ℕ → Select
select_comments conditions limit = record {
  columns =
      columns_of "" ("id" ∷ "workspace_id" ∷ "task_id" ∷ "user_id" ∷ "content" ∷ "created_at" ∷ []);
  table = "task_comments";
  alias = "";
  joins = [];
  conditions = conditions;
  order = (column "" "id", asc) ∷ [];
  limit = limit;
}

abbrev of_task : List Condition
of_task = equal (column "" "task_id") 1 ∷ equal (column "" "workspace_id") 2 ∷ []

abbrev pub comments_of_task : Select
comments_of_task = select_comments of_task (some 3)

abbrev pub comments_above : Select
comments_above = select_comments (of_task ++ above (column "" "id") 3 ∷ []) (some 4)

abbrev pub workspace_of_project : Select
workspace_of_project = record {
  columns = columns_of "" ("workspace_id" ∷ []);
  table = "projects";
  alias = "";
  joins = [];
  conditions = equal (column "" "id") 1 ∷ equal (column "" "workspace_id") 2 ∷ [];
  order = [];
  limit = none;
}

abbrev pub create_task_row : Write
create_task_row =
    insert "tasks"
      ("id" ∷ "workspace_id" ∷ "project_id" ∷ "title" ∷ "description" ∷ "status" ∷ "priority"
        ∷ "assignee_id" ∷ "deadline" ∷ [])
      ("id" ∷ "created_at" ∷ [])

abbrev one_task : ℕ → ℕ → List Condition
one_task id workspace_id =
    equal (column "" "id") id ∷ equal (column "" "workspace_id") workspace_id ∷ []

abbrev pub update_task_row : Write
update_task_row =
    update "tasks"
      (("title", 1)
        ∷ ("description", 2)
        ∷ ("priority", 3)
        ∷ ("assignee_id", 4)
        ∷ ("deadline", 5)
        ∷ [])
      (one_task 6 7)

abbrev pub update_status_row : Write
update_status_row = update "tasks" (("status", 1) ∷ []) (one_task 2 3)

abbrev pub create_comment_row : Write
create_comment_row =
    insert "task_comments" ("id" ∷ "workspace_id" ∷ "task_id" ∷ "user_id" ∷ "content" ∷ [])
      ("id" ∷ "created_at" ∷ [])
