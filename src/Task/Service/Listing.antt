-- ===== src/Task/Service/Listing.antt =====
-- GetTasksByProject of internal/task/service.go: the columns of a board, from the cache or the
-- table.
pub mod Columns
use distributed_workflow_sys.Prelude.{
  ℕ, String, Option, none, some, Bool, List, [], ◌∷◌, map, any, keep, ◌==◌, eqb, length,
  if◌then◌else◌,
}
use distributed_workflow_sys.Prelude.Act.{
  Act, Result, ok, fail, ◌>>=◌, ◌>>◌, pure, returned, attempt, ignore,
}
use distributed_workflow_sys.Domain.Task.{Task}
use distributed_workflow_sys.Task.Service.{Service, check_access}
use distributed_workflow_sys.Task.Service.Comments.{out_of_range}

abbrev pub all_statuses : List String
all_statuses = "TODO" ∷ "IN_PROGRESS" ∷ "REVIEW" ∷ "DONE" ∷ []

-- Without a filter all four; else those of the filter that are valid, in its order.
unfoldable pub filter_statuses : List String → List String
filter_statuses [] = all_statuses
filter_statuses (st ∷ statuses) = keep (λ s. any (λ v. v == s) all_statuses) (st ∷ statuses)

-- `m[k] = v` and `m[k]` for a map kept as a list of pairs.
abbrev pub put : {A : Type 0} → String → A → List (String × A) → List (String × A)
put k v [] = (k, v) ∷ []
put k v ((k', v') ∷ m) = let rest = put k v m in if k' == k then (k, v) ∷ m else (k', v') ∷ rest

abbrev pub get : {A : Type 0} → String → List (String × A) → Option A
get k [] = none
get k ((k', v') ∷ m) = if k' == k then some v' else get k m

-- The map from the tasks' ids, in which a later task replaces an earlier one.
abbrev by_id : List Task → List (String × Task) → List (String × Task)
by_id [] m = m
by_id (t ∷ ts) m = by_id ts (put t.id t m)

abbrev pub cons_some : Option Task → List Task → List Task
cons_some none ts = ts
cons_some (some t) ts = t ∷ ts

-- A stored task, or its cached state unless that has moved to another column.
abbrev pub newest : String → Task → Option Task → Option Task
newest st dt none = some dt
newest st dt (some ct) = if ct.status == st then some ct else none

unfoldable pub newer : String → List (String × Task) → List Task → List Task
newer st cached [] = []
newer st cached (dt ∷ db_tasks) =
    cons_some (newest st dt (get dt.id cached)) (newer st cached db_tasks)

unfoldable pub filter_newer : String → List Task → Result (List Task × List String) → List Task
unfolding newer
filter_newer st db_tasks (ok (c ∷ cached_tasks, missing)) =
    newer st (by_id (c ∷ cached_tasks) []) db_tasks
filter_newer st db_tasks (ok ([], missing)) = db_tasks
filter_newer st db_tasks (fail e) = db_tasks

-- The cached task of an id, else the one that was fetched for it.
abbrev first_of : String → List Task → Option Task
first_of id [] = none
first_of id (ct ∷ cached_tasks) = if ct.id == id then some ct else first_of id cached_tasks

abbrev pub either : Option Task → Option Task → Option Task
either none o = o
either (some t) o = some t

unfoldable ordered : List Task → List (String × Task) → List String → List Task
ordered cached_tasks missing_tasks [] = []
ordered cached_tasks missing_tasks (id ∷ task_ids) =
    cons_some (either (first_of id cached_tasks) (get id missing_tasks))
      (ordered cached_tasks missing_tasks task_ids)

-- `taskMap[id]`, the zero task for an id that is not in the map.
abbrev zero_task : Task
zero_task = record {
  id = "";
  workspace_id = "";
  project_id = "";
  title = "";
  description = "";
  status = "";
  priority = "";
  assignee_id = "";
  assignee_name = none;
  deadline = 0;
  created_at = 0;
}

abbrev or_zero : Option Task → Task
or_zero none = zero_task
or_zero (some t) = t

unfoldable in_order : List Task → List String → List Task
in_order cached_tasks task_ids = map (λ id. or_zero (get id (by_id cached_tasks []))) task_ids

unfoldable pub in_column : String → List Task → List Task
in_column st tasks = keep (λ t. t.status == st) tasks

-- A full page has its last id as the next cursor.
abbrev last_of : List String → Result String
last_of [] = fail out_of_range
last_of (id ∷ []) = ok id
last_of (id ∷ id' ∷ ids) = last_of (id' ∷ ids)

unfoldable pub next_cursor : ℕ → List String → Result String
next_cursor limit ids = if eqb (length ids) limit then last_of ids else ok ""

module _ {W : Type 0} (s : Service W) where
  unfoldable pub newer_of : String → List Task → Act W (List Task)
  unfolding filter_newer
  newer_of st [] = pure []
  newer_of st (t ∷ db_tasks) = do
    cached ← attempt (s.task_cache.get_task_metas (map (λ dt. dt.id) (t ∷ db_tasks)))
    pure (filter_newer st (t ∷ db_tasks) cached)

  -- A column that is not cached.
  unfoldable pub column_stored : String → String → String → ℕ → String → Act W (List Task × String)
  unfolding newer_of next_cursor
  column_stored workspace_id project_id st limit cursor = do
    db_tasks ←
        s.task_repo.get_by_project_id_and_status_cursor workspace_id project_id st limit cursor
    filtered ← newer_of st db_tasks
    ignore (s.task_cache.set_column_cache project_id st filtered)
    next ← returned (next_cursor limit (map (λ dt. dt.id) db_tasks))
    pure (filtered, next)

  unfoldable found_missing :
      String → Result (Option Task) → List (String × Task) → Act W (List (String × Task))
  found_missing id (ok (some t)) m = do ignore (s.task_cache.set_task_meta t); pure (put id t m)
  found_missing id (ok none) m = pure m
  found_missing id (fail e) m = pure m

  unfoldable fetch_missing :
      String → List String → List (String × Task) → Act W (List (String × Task))
  unfolding found_missing
  fetch_missing workspace_id [] m = pure m
  fetch_missing workspace_id (id ∷ ids) m = do
    r ← attempt (s.task_repo.find_by_id workspace_id id)
    m' ← found_missing id r m
    fetch_missing workspace_id ids m'

  unfoldable pub order_tasks : String → List String → List Task → List String → Act W (List Task)
  unfolding fetch_missing ordered in_order
  order_tasks workspace_id task_ids cached_tasks [] = pure (in_order cached_tasks task_ids)
  order_tasks workspace_id task_ids cached_tasks (id ∷ missing_ids) = do
    missing_tasks ← fetch_missing workspace_id (id ∷ missing_ids) []
    pure (ordered cached_tasks missing_tasks task_ids)

  -- A cached column, by its ids.
  unfoldable pub column_cached : String → String → ℕ → List String → Act W (List Task × String)
  unfolding order_tasks in_column next_cursor
  column_cached workspace_id st limit [] = pure ([], "")
  column_cached workspace_id st limit (id ∷ task_ids) = do
    metas ← s.task_cache.get_task_metas (id ∷ task_ids)
    tasks ← order_tasks workspace_id (id ∷ task_ids) metas.0 metas.1
    next ← returned (next_cursor limit (id ∷ task_ids))
    pure (in_column st tasks, next)

  unfoldable pub column_by :
      String
      → String
      → String
      → ℕ
      → String
      → Result (Option (List String))
      → Act W (List Task × String)
  unfolding column_stored column_cached
  column_by workspace_id project_id st limit cursor (ok (some task_ids)) =
      column_cached workspace_id st limit task_ids
  column_by workspace_id project_id st limit cursor (ok none) =
      column_stored workspace_id project_id st limit cursor
  column_by workspace_id project_id st limit cursor (fail e) =
      column_stored workspace_id project_id st limit cursor

  unfoldable pub column : String → String → String → ℕ → String → Act W (List Task × String)
  unfolding column_by
  column workspace_id project_id st limit cursor =
      attempt (s.task_cache.get_task_ids project_id st limit cursor)
      >>= column_by workspace_id project_id st limit cursor

  -- The loop over the statuses; the pair stands for `result` and `nextCursors`.
  unfoldable pub columns :
      String
      → String
      → ℕ
      → String
      → List String
      → List (String × (List Task × String))
      → Act W (List (String × (List Task × String)))
  unfolding column
  columns workspace_id project_id limit cursor [] result = pure result
  columns workspace_id project_id limit cursor (st ∷ statuses) result = do
    c ← column workspace_id project_id st limit cursor
    columns workspace_id project_id limit cursor statuses (put st c result)

  unfoldable pub get_tasks_by_project :
      String
      → String
      → String
      → List String
      → ℕ
      → String
      → Act W (List (String × (List Task × String)))
  unfolding columns filter_statuses
  get_tasks_by_project workspace_id project_id user_id statuses limit cursor = do
    check_access s workspace_id user_id []
    columns workspace_id project_id limit cursor (filter_statuses statuses) []
