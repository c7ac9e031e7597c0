-- ===== src/Task/Service/Listing/Columns.antt =====
-- What the columns of GetTasksByProject hold.
use distributed_workflow_sys.Prelude.{
  ℕ, ◌≡◌, refl, subst, String, Option, none, some, true, inl, inr, Bool-cases, List, [], ◌∷◌, any,
  keep-All, All, ◌==◌, map,
}
use distributed_workflow_sys.Prelude.Act.{Result, ok, fail}
use distributed_workflow_sys.Prelude.Keeps.{Returns, Returns-bind}
use distributed_workflow_sys.Domain.Task.{Task}
use distributed_workflow_sys.Task.Service.{Service, check_access}
use distributed_workflow_sys.Task.Service.Listing.{
  all_statuses, filter_statuses, put, get, cons_some, newest, newer, filter_newer, in_column,
  next_cursor, newer_of, column_stored, order_tasks, column_cached, column_by, column, columns,
  get_tasks_by_project,
}

abbrev pub InStatus : String → Task → Type 0
InStatus st t = (t.status == st) ≡ true

pub put-All :
    {A : Type 0} (P : String × A → Type 0) (k : String) (v : A) (m : List (String × A))
    → P (k, v)
    → All P m
    → All P (put k v m)
put-All P k v [] h rest = (h, tt)
put-All P k v ((k', v') ∷ m) h rest = elim (Bool-cases (k' == k)) [
  | inl same ↦ rw same (h, rest.1)
  | inr apart ↦ rw apart (rest.0, put-All P k v m h rest.1)
]

cons_newest-All :
    (st : String) (dt : Task) (cached : Option Task) (ts : List Task)
    → InStatus st dt
    → All (InStatus st) ts
    → All (InStatus st) (cons_some (newest st dt cached) ts)
cons_newest-All st dt none ts h rest = (h, rest)
cons_newest-All st dt (some ct) ts h rest = elim (Bool-cases (ct.status == st)) [
  | inl here ↦ rw here (here, rest)
  | inr moved ↦ rw moved rest
]

newer-All :
    (st : String) (cached : List (String × Task)) (db_tasks : List Task)
    → All (InStatus st) db_tasks
    → All (InStatus st) (newer st cached db_tasks)
unfolding newer
newer-All st cached [] h = tt
newer-All st cached (dt ∷ db_tasks) h =
    cons_newest-All st dt (get dt.id cached) (newer st cached db_tasks) h.0
      (newer-All st cached db_tasks h.1)

filter_newer-All :
    (st : String) (db_tasks : List Task) (r : Result (List Task × List String))
    → All (InStatus st) db_tasks
    → All (InStatus st) (filter_newer st db_tasks r)
unfolding filter_newer
filter_newer-All st db_tasks (ok (c ∷ cs, missing)) h = newer-All st _ db_tasks h
filter_newer-All st db_tasks (ok ([], missing)) h = h
filter_newer-All st db_tasks (fail e) h = h

-- A column of the answer: a valid status, with tasks of that status.
abbrev pub Column : String × (List Task × String) → Type 0
Column c = (any (λ v. v == c.0) all_statuses ≡ true) × All (InStatus c.0) c.1.0

filter_statuses-valid :
    (statuses : List String)
    → All (λ st. any (λ v. v == st) all_statuses ≡ true) (filter_statuses statuses)
unfolding filter_statuses
filter_statuses-valid [] = (refl, (refl, (refl, (refl, tt))))
filter_statuses-valid (st ∷ statuses) =
    keep-All (λ s. any (λ v. v == s) all_statuses) (st ∷ statuses)

module _ {W : Type 0} (s : Service W)
    (stored : (workspace_id project_id st : String) (limit : ℕ) (cursor : String) (w : W)
      → Returns
          (All (InStatus st))
          (s.task_repo.get_by_project_id_and_status_cursor workspace_id project_id st limit cursor
            w).0)
    (workspace_id project_id : String) (limit : ℕ) (cursor : String) where
  abbrev Shelf : String → List Task × String → Type 0
  Shelf st c = All (InStatus st) c.0

  newer_of-All :
      (st : String) (db_tasks : List Task) (w : W)
      → All (InStatus st) db_tasks
      → Returns (All (InStatus st)) (newer_of s st db_tasks w).0
  unfolding newer_of
  newer_of-All st [] w h = tt
  newer_of-All st (t ∷ db_tasks) w h =
      filter_newer-All st (t ∷ db_tasks)
        (s.task_cache.get_task_metas (map (λ dt. dt.id) (t ∷ db_tasks)) w).0 h

  column_stored-Shelf :
      (st : String) (w : W)
      → Returns (Shelf st) (column_stored s workspace_id project_id st limit cursor w).0
  unfolding column_stored
  column_stored-Shelf st w =
      Returns-bind (Shelf st)
        (s.task_repo.get_by_project_id_and_status_cursor workspace_id project_id st limit cursor w)
        _
        (λ db_tasks w1 r1. Returns-bind (Shelf st) (newer_of s st db_tasks w1) _ (λ filtered w2 r2.
          let w3 = (s.task_cache.set_column_cache project_id st filtered w2).1 in
          Returns-bind (Shelf st) (next_cursor limit (map (λ dt. dt.id) db_tasks), w3) _
            (λ next w4 r4.
              subst (λ o. Returns (All (InStatus st)) o.0) r2
                (newer_of-All st db_tasks w1 (
                  subst (λ o. Returns (All (InStatus st)) o.0) r1
                    (stored workspace_id project_id st limit cursor w))))))

  column_cached-Shelf :
      (st : String) (task_ids : List String) (w : W)
      → Returns (Shelf st) (column_cached s workspace_id st limit task_ids w).0
  unfolding column_cached in_column
  column_cached-Shelf st [] w = tt
  column_cached-Shelf st (id ∷ task_ids) w =
      Returns-bind (Shelf st) (s.task_cache.get_task_metas (id ∷ task_ids) w) _ (λ metas w1 r1.
        Returns-bind (Shelf st) (order_tasks s workspace_id (id ∷ task_ids) metas.0 metas.1 w1) _
          (λ tasks w2 r2.
            Returns-bind (Shelf st) (next_cursor limit (id ∷ task_ids), w2) _
              (λ next w3 r3. keep-All (λ t. t.status == st) tasks)))

  column_by-Shelf :
      (st : String) (ids : Result (Option (List String))) (w : W)
      → Returns (Shelf st) (column_by s workspace_id project_id st limit cursor ids w).0
  unfolding column_by
  column_by-Shelf st (ok (some task_ids)) w = column_cached-Shelf st task_ids w
  column_by-Shelf st (ok none) w = column_stored-Shelf st w
  column_by-Shelf st (fail e) w = column_stored-Shelf st w

  columns-Column :
      (statuses : List String) (result : List (String × (List Task × String))) (w : W)
      → All (λ st. any (λ v. v == st) all_statuses ≡ true) statuses
      → All Column result
      → Returns (All Column) (columns s workspace_id project_id limit cursor statuses result w).0
  unfolding columns column
  columns-Column [] result w valid h = h
  columns-Column (st ∷ statuses) result w valid h =
      let (ids, w1) = s.task_cache.get_task_ids project_id st limit cursor w in
      Returns-bind (All Column) (column_by s workspace_id project_id st limit cursor ids w1) _
        (λ c w2 r. columns-Column statuses (put st c result) w2 valid.1 (
          put-All Column st c result
            (valid.0, subst (λ o. Returns (Shelf st) o.0) r (column_by-Shelf st ids w1)) h))

  -- If the table gives only tasks of the status that it is asked for, every column that
  -- GetTasksByProject returns is one of the four statuses and holds tasks of that status alone,
  -- whatever the cache holds.
  pub get_tasks_by_project-Column :
      (user_id : String) (statuses : List String) (w : W)
      → Returns
          (All Column)
          (get_tasks_by_project s workspace_id project_id user_id statuses limit cursor w).0
  unfolding get_tasks_by_project
  get_tasks_by_project-Column user_id statuses w =
      Returns-bind (All Column) (check_access s workspace_id user_id [] w) _ (λ a w1 r.
        columns-Column (filter_statuses statuses) [] w1 (filter_statuses-valid statuses) tt)
