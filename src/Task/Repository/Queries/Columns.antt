-- ===== src/Task/Repository/Queries/Columns.antt =====
-- The tasks that GetByProjectIDAndStatusCursor reads have the status that it is asked for.
use distributed_workflow_sys.Prelude.{
  ℕ, ◌≡◌, refl, subst, String, Option, none, some, true, inl, inr, Bool-cases, List, [], ◌∷◌, map,
  keep-All, take-All, ◌==◌, All, arith,
}
use distributed_workflow_sys.Prelude.Act.{Act, after}
use distributed_workflow_sys.Prelude.Keeps.{Returns, Returns-bind}
use distributed_workflow_sys.Sql.{Statement, Value, text, time, number, flag, null}
use distributed_workflow_sys.Sql.Query.{Row, Db, Select, select}
use distributed_workflow_sys.Sql.Laws.{Answers}
use distributed_workflow_sys.Sql.Meaning.{
  Tables, Scope, all_hold, limited, limit_to, arg, matching, precedes, same, selected, shown_as,
}
use distributed_workflow_sys.Sql.Scan.{as_text, as_optional, as_time, scan_all}
use distributed_workflow_sys.Sql.Sorted.{sort_by-All}
use distributed_workflow_sys.Task.Service.{Service}
use distributed_workflow_sys.Task.Service.Listing.{get_tasks_by_project}
use distributed_workflow_sys.Task.Service.Listing.Columns.{
  Column, InStatus, get_tasks_by_project-Column,
}
use distributed_workflow_sys.Task.Repository.Queries.{
  scan_task, get_by_project_id_and_status_cursor, repository,
}
use distributed_workflow_sys.Task.Repository.Queries.Statements.{tasks_of_column, tasks_below}

module _ {A : Type 0} (P : A → Type 0) where
  limited-All : (v : Value) (xs : List A) → All P xs → All P (limited v xs)
  limited-All (number n) xs h = take-All P n xs h
  limited-All (text s) xs h = tt
  limited-All (time t) xs h = tt
  limited-All (flag b) xs h = tt
  limited-All null xs h = h

  limit_to-All :
      (args : List Value) (limit : Option ℕ) (xs : List A)
      → All P xs
      → All P (limit_to args limit xs)
  limit_to-All args none xs h = h
  limit_to-All args (some n) xs h = limited-All (arg args n) xs h

All-map :
    {A B : Type 0} (f : A → B) (P : A → Type 0) (Q : B → Type 0) (xs : List A)
    → ((x : A) → P x → Q (f x))
    → All P xs
    → All Q (map f xs)
All-map f P Q [] h k = tt
All-map f P Q (x ∷ xs) h k = (h x k.0, All-map f P Q xs h k.1)

-- Every row that a query shows comes from a scope that meets its conditions.
selected-All :
    (tables : Tables) (q : Select) (args : List Value) (Q : Row → Type 0)
    → ((scope : Scope) → all_hold args q.conditions scope ≡ true → Q (shown_as q.columns scope))
    → All Q (selected tables q args)
selected-All tables q args Q h =
    let P : Scope → Type 0 = λ scope. all_hold args q.conditions scope ≡ true in
    All-map (shown_as q.columns) P Q _ h (
      limit_to-All P args q.limit _ (
        sort_by-All (precedes q.order) P (matching tables q args)
          (keep-All (all_hold args q.conditions) _)))

abbrev HasStatus : String → Row → Type 0
HasStatus status row = same (row "status") (text status) ≡ true

module _ {W : Type 0} where
  -- A column that is scanned into a string.
  as_text-Returns :
      {B : Type 0} (R : B → Type 0) (v : Value) (f : String → Act W B) (w : W)
      → ((s : String) → v ≡ text s → Returns R (f s w).0)
      → Returns R (after (as_text v, w) f).0
  as_text-Returns R (text s) f w h = h s refl
  as_text-Returns R (time t) f w h = tt
  as_text-Returns R (number n) f w h = tt
  as_text-Returns R (flag b) f w h = tt
  as_text-Returns R null f w h = tt

  scan_task-InStatus :
      (status : String) (row : Row) (w : W)
      → HasStatus status row
      → Returns (InStatus status) (scan_task row w).0
  unfolding scan_task
  scan_task-InStatus status row w h = as_text-Returns (InStatus status) (row "id") _ w λ id e0.
      as_text-Returns (InStatus status) (row "workspace_id") _ w λ workspace_id e1.
        as_text-Returns (InStatus status) (row "project_id") _ w λ project_id e2.
          as_text-Returns (InStatus status) (row "title") _ w λ title e3.
            as_text-Returns (InStatus status) (row "description") _ w λ description e4.
              as_text-Returns (InStatus status) (row "status") _ w λ st e5.
                as_text-Returns (InStatus status) (row "priority") _ w λ priority e6.
                  as_text-Returns (InStatus status) (row "assignee_id") _ w λ assignee_id e7.
                    Returns-bind (InStatus status) (as_optional (row "assignee_name"), w) _
                      λ name w8 e8.
                        Returns-bind (InStatus status) (as_time (row "deadline"), w8) _
                          λ deadline w9 e9.
                            Returns-bind (InStatus status) (as_time (row "created_at"), w9) _
                              λ created_at w10 e10. subst (λ v. same v (text status) ≡ true) e5 h

  scan_all-All :
      {A : Type 0} (scan : Row → Act W A) (Q : Row → Type 0) (R : A → Type 0) (rows : List Row)
      (w : W)
      → ((row : Row) (w : W) → Q row → Returns R (scan row w).0)
      → All Q rows
      → Returns (All R) (scan_all scan rows w).0
  scan_all-All scan Q R [] w h k = tt
  scan_all-All scan Q R (row ∷ rows) w h k = Returns-bind (All R) (scan row w) _ λ a w1 e.
      Returns-bind (All R) (scan_all scan rows w1) _ λ rest w2 e'. (
        subst (λ o. Returns R o.0) e (h row w k.0),
        subst (λ o. Returns (All R) o.0) e' (scan_all-All scan Q R rows w1 h k.1),
      )

module _ {W : Type 0} (db : Db W) (tables : W → Tables) (answers : Answers db tables) where
  get_by_project_id_and_status_cursor-InStatus :
      (workspace_id project_id status : String) (limit : ℕ) (cursor : String) (w : W)
      → Returns
          (All (InStatus status))
          (get_by_project_id_and_status_cursor db workspace_id project_id status limit cursor w).0
  unfolding get_by_project_id_and_status_cursor
  get_by_project_id_and_status_cursor-InStatus workspace_id project_id status limit cursor w =
      elim (Bool-cases (cursor == "")) [
        | inl start ↦
            let args = text project_id ∷ text status ∷ text workspace_id ∷ number limit ∷ [] in
            rw (start, answers.select (select tasks_of_column) args w)
              (scan_all-All scan_task (HasStatus status) (InStatus status) _ w
                (scan_task-InStatus status)
                (selected-All (tables w) tasks_of_column args (HasStatus status)
                  (λ scope h. ground arith)))
        | inr further ↦
            let args =
              text project_id ∷ text status ∷ text workspace_id ∷ text cursor ∷ number limit ∷ [] in
            rw (further, answers.select (select tasks_below) args w)
              (scan_all-All scan_task (HasStatus status) (InStatus status) _ w
                (scan_task-InStatus status)
                (selected-All (tables w) tasks_below args (HasStatus status)
                  (λ scope h. ground arith)))
      ]

  -- Over the repository with a database that answers as documented, every column that
  -- GetTasksByProject returns is one of the four statuses and holds tasks of that status alone,
  -- whatever the cache and the tables hold.
  pub get_tasks_by_project-InStatus :
      (exec : Statement → Act W (Unit {0})) (s : Service W)
      (workspace_id project_id user_id : String) (statuses : List String) (limit : ℕ)
      (cursor : String) (w : W)
      → Returns
          (All Column)
          (get_tasks_by_project
            (record s { task_repo = repository db exec })
            workspace_id
            project_id
            user_id
            statuses
            limit
            cursor
            w).0
  get_tasks_by_project-InStatus exec s workspace_id project_id user_id statuses limit cursor w =
      get_tasks_by_project-Column (record s { task_repo = repository db exec })
        get_by_project_id_and_status_cursor-InStatus workspace_id project_id limit cursor user_id
        statuses w
