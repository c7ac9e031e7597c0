-- ===== src/Task/Repository/Queries/Nulls.antt =====
-- Tasks without an assignee or a deadline, which the bulk operations store as NULL.
use distributed_workflow_sys.Prelude.{◌≡◌, [], ◌∷◌}
use distributed_workflow_sys.Prelude.Act.{Act, app, no_rows, other, Result, ok, fail}
use distributed_workflow_sys.Domain.Task.{Task}
use distributed_workflow_sys.Sql.Query.{Row}
use distributed_workflow_sys.Sql.Laws.{inserted}
use distributed_workflow_sys.Sql.Meaning.{no_row}
use distributed_workflow_sys.Task.Repository.{create_row}

-- The row of a task as the columns of bulkCreateBatch name its values.
abbrev pub stored_row : Task → Row
stored_row t =
    inserted (create_row t) 1
      ("id" ∷ "workspace_id" ∷ "project_id" ∷ "title" ∷ "description" ∷ "status" ∷ "priority"
        ∷ "assignee_id" ∷ "deadline" ∷ "created_at" ∷ [])
      no_row

-- The row that a query shows of a task has the task's assignee and deadline.
abbrev pub Shows : Task → Row → Type 0
Shows t row =
    (row "assignee_id" ≡ stored_row t "assignee_id") × (row "deadline" ≡ stored_row t "deadline")

-- The error of a column that cannot be scanned, which is not the one for no rows.
abbrev Unreadable : {A : Type 0} → Result A → Type 0
Unreadable (ok a) = ⊥
Unreadable (fail (app e)) = ⊥
Unreadable (fail no_rows) = ⊥
Unreadable (fail (other s)) = Unit {0}
