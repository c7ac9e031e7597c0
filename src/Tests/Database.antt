-- ===== src/Tests/Database.antt =====
-- A database for the examples: it keeps the rows of INSERT statements, but for a row whose key is
-- taken, and a check constraint
-- refuses a statement that holds a row with the priority URGENT.
use distributed_workflow_sys.Prelude.{
  ◌≡◌, refl, ap, ◌∙◌, String, Option, none, some, Bool, false, List, [], ◌∷◌, map, any, put_all,
  ◌==◌, if◌then◌else◌,
}
use distributed_workflow_sys.Prelude.Act.{Act, Error, other, ok, fail}
use distributed_workflow_sys.Domain.Task.{Task}
use distributed_workflow_sys.Domain.Event
use distributed_workflow_sys.Sql.{
  Value, text, time, number, flag, null, Statement, get_elem?, resolved,
}
use distributed_workflow_sys.Bulk.{is_connection_error}
use distributed_workflow_sys.Bulk.Exact.{AtomicBatch, store_all}
use distributed_workflow_sys.Kafka.Loop.{Message}
use distributed_workflow_sys.Task.Repository.{create_row, bulk_create_batch}
use distributed_workflow_sys.Task.Repository.Conflict.{insert_new}
use distributed_workflow_sys.Task.Repository.Rows.{statements-resolved}

pub record Db : Type 0 where
  pub rows : List (List Value)
  pub dead : List Event.Message
  pub committed : List Message

abbrev pub empty_db : Db
empty_db = record { rows = []; dead = []; committed = [] }

abbrev bound : List (Option Value) → List Value
bound [] = []
bound (none ∷ vs) = bound vs
bound (some v ∷ vs) = v ∷ bound vs

bound-some : (vs : List Value) → bound (map some vs) ≡ vs
bound-some [] = refl
bound-some (v ∷ vs) = ap (λ l. v ∷ l) (bound-some vs)

bound-rows :
    (ts : List Task) → map bound (map (λ t. map some (create_row t)) ts) ≡ map create_row ts
bound-rows [] = refl
bound-rows (t ∷ ts) = rw (bound-some (create_row t), bound-rows ts) refl

abbrev urgent : Option Value → Bool
urgent none = false
urgent (some (text s)) = s == "URGENT"
urgent (some (time t)) = false
urgent (some (number n)) = false
urgent (some (flag b)) = false
urgent (some null) = false

abbrev bad_row : List Value → Bool
bad_row row = urgent (get_elem? row 6)

abbrev pub violation : Error
violation = other "pq: new row for relation tasks violates check constraint"

abbrev insert : List (List Value) → Act Db (Unit {0})
insert rows w =
    if any bad_row rows
    then (fail violation, w)
    else (ok tt, record w { rows = put_all insert_new rows w.rows })

abbrev pub exec : Statement → Act Db (Unit {0})
exec s w = insert (map bound (resolved s)) w

abbrev pub is_bad : Task → Bool
is_bad t = bad_row (create_row t)

abbrev pub store : Task → Db → Db
store t w = record w { rows = insert_new (create_row t) w.rows }

exec-insert : (ts : List Task) (w : Db) → bulk_create_batch exec ts w ≡ insert (map create_row ts) w
unfolding bulk_create_batch
exec-insert ts w =
    ap (λ l. insert l w) (ap (map bound) (statements-resolved ts [] []).0 ∙ bound-rows ts)

any-rows : (ts : List Task) → any bad_row (map create_row ts) ≡ any is_bad ts
any-rows [] = refl
any-rows (t ∷ ts) = rw (any-rows ts) refl

store_all-rows :
    (ts : List Task) (w : Db)
    → store_all store ts w ≡ record w { rows = put_all insert_new (map create_row ts) w.rows }
store_all-rows [] w = refl
store_all-rows (t ∷ ts) w = store_all-rows ts (store t w)

pub exec-AtomicBatch : AtomicBatch (bulk_create_batch exec) is_bad store
unfolding is_connection_error
exec-AtomicBatch = record {
  accepts = λ t ts w h.
      exec-insert (t ∷ ts) w ∙ rw (any-rows (t ∷ ts), h, store_all-rows (t ∷ ts) w) refl;
  refuses = λ ts w h. (violation, exec-insert ts w ∙ rw (any-rows ts, h) refl, refl);
}

abbrev pub a_task : String → String → Task
a_task id priority = record {
  id = id;
  workspace_id = "ws";
  project_id = "p";
  title = "Write the report";
  description = "";
  status = "TODO";
  priority = priority;
  assignee_id = "bob";
  assignee_name = some "Bob";
  deadline = 0;
  created_at = 5;
}
