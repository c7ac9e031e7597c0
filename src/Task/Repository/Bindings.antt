-- ===== src/Task/Repository/Bindings.antt =====
-- Which column of the tasks table each value of the batch statements of internal/task/repository.go
-- goes to.
use distributed_workflow_sys.Prelude.{◌≡◌, refl, String, some, List, [], ◌∷◌, map, drop, joined}
use distributed_workflow_sys.Domain.Task.{Task, TaskStatusUpdate}
use distributed_workflow_sys.Sql.{
  Value, text, time, Statement, optional_text, optional_time, resolved,
}
use distributed_workflow_sys.Task.Repository.{
  create_row, create_statement, update_row, update_statement, status_row, status_statement,
}
use distributed_workflow_sys.Task.Repository.Rows.{statements-resolved}

-- The name of a column, with the value that an element has for it.
abbrev pub Column : Type 0 → Type 0
Column A = String × (A → Value)

abbrev pub created_columns : List (Column Task)
created_columns =
    ("id", λ t. text t.id)
    ∷ ("workspace_id", λ t. text t.workspace_id)
    ∷ ("project_id", λ t. text t.project_id)
    ∷ ("title", λ t. text t.title)
    ∷ ("description", λ t. text t.description)
    ∷ ("status", λ t. text t.status)
    ∷ ("priority", λ t. text t.priority)
    ∷ ("assignee_id", λ t. optional_text t.assignee_id)
    ∷ ("deadline", λ t. optional_time t.deadline)
    ∷ ("created_at", λ t. time t.created_at)
    ∷ []

-- The first two columns of the updates choose the row, the others are set.
abbrev pub updated_columns : List (Column Task)
updated_columns =
    ("id", λ t. text t.id)
    ∷ ("workspace_id", λ t. text t.workspace_id)
    ∷ ("title", λ t. text t.title)
    ∷ ("description", λ t. text t.description)
    ∷ ("priority", λ t. text t.priority)
    ∷ ("assignee_id", λ t. optional_text t.assignee_id)
    ∷ ("deadline", λ t. optional_time t.deadline)
    ∷ []

abbrev pub moved_columns : List (Column TaskStatusUpdate)
moved_columns =
    ("id", λ u. text u.task_id)
    ∷ ("workspace_id", λ u. text u.workspace_id)
    ∷ ("status", λ u. text u.status)
    ∷ []

abbrev commas : List String → String
commas [] = ""
commas (a ∷ []) = a
commas (a ∷ b ∷ rest) = joined (a ∷ ", " ∷ commas (b ∷ rest) ∷ [])

abbrev assignment : String → String
assignment name = joined (name ∷ " = u." ∷ name ∷ [])

module _ {A : Type 0} (columns : List (Column A)) where
  abbrev names : List String
  names = map (λ c. c.0) columns

  -- The statement hands over a row for each element, with the element's value for each column.
  abbrev pub Binds : List A → Statement → Type 0
  Binds xs s = resolved s ≡ map (λ x. map (λ c. some (c.1 x)) columns) xs

  -- An insertion into these columns, in their order, which leaves rows that exist as they are.
  abbrev pub Inserts : List A → Statement → Type 0
  Inserts xs s =
      (s.head ≡ joined ("INSERT INTO tasks (" ∷ commas names ∷ ") VALUES " ∷ []))
      × (s.tail ≡ " ON CONFLICT (id, workspace_id) DO NOTHING")
      × Binds xs s

  -- An update from a table `u` of these columns, in their order, in which each column but the two
  -- of the key is set to the column of `u` with the same name.
  abbrev pub Updates : List A → Statement → Type 0
  Updates xs s =
      (s.head
        ≡ joined (
            "UPDATE tasks AS t SET "
            ∷ commas (map assignment (drop 2 names))
            ∷ " FROM (VALUES "
            ∷ []))
      × (s.tail
          ≡ joined (
              ") AS u("
              ∷ commas names
              ∷ ") WHERE t.id = u.id AND t.workspace_id = u.workspace_id"
              ∷ []))
      × Binds xs s

-- For any batches, the three batch statements hand over one row for each element, in order. The
-- insertion names its columns in the order of the values, so that each field of a task goes to the
-- column of its name; the updates name the columns of their rows in that order too, and set each
-- column of the table to the value of the same name, in the row with the element's id and
-- workspace.
pub statements-bound :
    (created updated : List Task) (moved : List TaskStatusUpdate)
    → Inserts created_columns created (create_statement created)
      × Updates updated_columns updated (update_statement updated)
      × Updates moved_columns moved (status_statement moved)
unfolding create_statement update_statement status_statement create_row update_row status_row
statements-bound created updated moved =
    let (inserted, replaced, set) = statements-resolved created updated moved in
    ((refl, refl, inserted), (refl, refl, replaced), (refl, refl, set))
