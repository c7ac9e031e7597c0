-- ===== src/Tests/Pipeline.antt =====
-- The theorems on the bulk operations and the consumers, at small batches.
use distributed_workflow_sys.Prelude.{
  ℕ, ◌≡◌, refl, sym, String, Option, none, some, List, [], ◌∷◌, ◌++◌, map, keep, All, ◌==◌, not,
  if◌then◌else◌, arith,
}
use distributed_workflow_sys.Prelude.Act.{ok, raise, each}
use distributed_workflow_sys.Domain.Task.{Task, TaskStatusUpdate}
use distributed_workflow_sys.Domain.User.{UserSnapshot}
use distributed_workflow_sys.Domain.Event
use mathlib.Core.List.{append-nil}
use distributed_workflow_sys.Sql.{Value}
use distributed_workflow_sys.Bulk.Exact.{Outcome, good}
use distributed_workflow_sys.Task.Repository.{
  create_row, create_statement, update_statement, status_statement, bulk_create, bulk_update,
  bulk_update_status,
}
use distributed_workflow_sys.Task.Repository.Conflict.{insert_new}
use distributed_workflow_sys.Task.Repository.Rows.{bulk_create-exact}
use distributed_workflow_sys.Task.Repository.Bindings.{
  created_columns, updated_columns, moved_columns, Inserts, Updates, statements-bound,
}
use distributed_workflow_sys.Kafka.Loop.{Message, Event, got, deadline_exceeded, waiting, run_loop}
use distributed_workflow_sys.Kafka.Loop.Balance.{
  received, flushed, rejected, pending, decodes, ActionFits,
}
use distributed_workflow_sys.Kafka.Loop.Conserve.{run_loop-conserves}
use distributed_workflow_sys.Kafka.Loop.Bounds.{InBounds, run_loop-InBounds}
use distributed_workflow_sys.Kafka.Flush.{Reader}
use distributed_workflow_sys.Kafka.Accounts.{Registers, Adds, batched, settled}
use distributed_workflow_sys.Kafka.TaskHandlers.{TaskHandler, task_batch_size, run_loop_created}
use distributed_workflow_sys.Kafka.TaskHandlers.Delivery.{Delivery, letter, task_created-delivers}
use distributed_workflow_sys.Kafka.Loop.Overtaking.{then_bad}
use distributed_workflow_sys.Kafka.TaskHandlers.Overtaking.{run_loop_created-overtakes}
use distributed_workflow_sys.Kafka.UserHandlers.{
  UserEvent, UserRegisteredHandler, send_to_dlq, dlq_failed,
}
use distributed_workflow_sys.Kafka.UserHandlers.Shadowed.{dlq_failed-first}
use distributed_workflow_sys.Tests.Database.{
  Db, empty_db, exec, is_bad, store, exec-AtomicBatch, a_task, violation,
}

abbrev three : List Task
three = a_task "1" "LOW" ∷ a_task "2" "URGENT" ∷ a_task "3" "HIGH" ∷ []

abbrev moved : List TaskStatusUpdate
moved = record { workspace_id = "ws"; task_id = "1"; status = "DONE" } ∷ []

statements-bound_example :
    Inserts created_columns three (create_statement three)
    × Updates updated_columns three (update_statement three)
    × Updates moved_columns moved (status_statement moved)
statements-bound_example = statements-bound three three moved

bulk_create-exact_example : bulk_create exec three empty_db ≡ Outcome is_bad store three empty_db
bulk_create-exact_example = bulk_create-exact exec is_bad store exec-AtomicBatch three empty_db

abbrev a_user : String → String → UserSnapshot
a_user id name = record {
  id = id;
  full_name = name;
  email = "b@example.org";
  role = "USER";
  avatar_url = "";
  created_at = 1;
}

abbrev pub a_message : ℕ → String → Message
a_message offset value = record {
  partition = 0;
  offset = offset;
  key = "k";
  value = value;
  headers = [];
}

-- A message that holds "-" does not decode; else its text is the priority of a task.
abbrev decode : Message → Option Task
decode m = if m.value == "-" then none else some (a_task "1" m.value)

abbrev events : List Event
events =
    got (a_message 0 "LOW")
    ∷ got (a_message 1 "-")
    ∷ got (a_message 2 "URGENT")
    ∷ deadline_exceeded
    ∷ got (a_message 3 "HIGH")
    ∷ []

run_loop-conserves_example :
    let (actions, last) = run_loop 2 decode waiting events in
    (flushed actions ++ pending last ≡ keep (decodes decode) (received events))
    × (rejected actions ≡ keep (λ m. not (decodes decode m)) (received events))
    × All (ActionFits decode) actions
run_loop-conserves_example = run_loop-conserves 2 decode events

run_loop-InBounds_example : All (InBounds 2) (run_loop 2 decode waiting events).0
run_loop-InBounds_example = run_loop-InBounds 2 decode events (omega arith)

abbrev pub handler : TaskHandler Db
handler = record {
  task_repo = record {
    find_by_id = λ ws id. raise violation;
    get_by_project_id_and_status_cursor = λ ws p st n c. raise violation;
    create_comment = λ ws c. raise violation;
    get_comments_by_task_id = λ ws id n c. raise violation;
    bulk_create = bulk_create exec;
    bulk_update = bulk_update exec;
    bulk_update_status = bulk_update_status exec;
  };
  dlq_writer = record { write_messages = λ m w. (ok tt, record w { dead = w.dead ++ m ∷ [] }) };
  runtime = record {
    new_v7 = raise violation;
    new_v4 = raise violation;
    now = λ w. (0, w);
    marshal_task = λ t. ok t.title;
    marshal_status_update = λ u. ok u.status;
    marshal_notification = λ p. ok p.title;
  };
}

abbrev pub reader : Reader Db
reader = record { commit_messages = λ ms w. (ok tt, record w { committed = w.committed ++ ms }) }

abbrev pub registers : Registers Db (List Value) Event.Message
registers = record { stored = λ w. w.rows; dead = λ w. w.dead; committed = λ w. w.committed }

pub delivery : Delivery handler reader exec registers is_bad store (λ t. t.title)
delivery = record {
  repository = refl;
  atomic = exec-AtomicBatch;
  stores_one = λ t w. record {
    stored_adds = refl;
    dead_adds = sym (append-nil w.dead);
    committed_adds = sym (append-nil w.committed);
  };
  marshals = λ t. refl;
  writes = λ m w. (
    record w { dead = w.dead ++ m ∷ [] },
    refl,
    record { stored_adds = refl; dead_adds = refl; committed_adds = sym (append-nil w.committed) },
  );
  commits = λ ms w. (
    record w { committed = w.committed ++ ms },
    refl,
    record { stored_adds = refl; dead_adds = sym (append-nil w.dead); committed_adds = refl },
  );
}

task_created-delivers_example :
    let (actions, last) = run_loop task_batch_size decode waiting events in
    (w' : Db) × (run_loop_created handler reader decode events empty_db ≡ (ok tt, w'))
    × Adds insert_new registers empty_db w'
        (map create_row (keep (good is_bad) (batched actions)))
        (map (letter (λ t. t.title)) (keep is_bad (batched actions)))
        (settled actions)
    × (map some (batched actions) ≡ map decode (flushed actions))
    × (flushed actions ++ pending last ≡ keep (decodes decode) (received events))
task_created-delivers_example =
    task_created-delivers handler reader exec registers is_bad store (λ t. t.title) delivery decode
      events empty_db

run_loop_created-overtakes_example :
    (w' : Db) × (run_loop_created handler reader decode
        (then_bad (a_message 1 "-") (a_message 0 "LOW" ∷ []))
        empty_db
      ≡ (ok tt, w'))
    × (w'.committed ≡ a_message 1 "-" ∷ [])
    × (w'.rows ≡ [])
    × (w'.dead ≡ [])
run_loop_created-overtakes_example =
    run_loop_created-overtakes handler reader exec registers is_bad store (λ t. t.title) delivery
      decode (a_task "1" "LOW" ∷ []) (a_message 0 "LOW" ∷ []) (a_message 1 "-") empty_db (refl, tt)
      (omega arith) refl

abbrev registration : UserRegisteredHandler (List Message)
registration = record {
  user_repo = record {
    upsert_user = λ u. raise violation;
    bulk_upsert_users = λ us w. (ok us, w);
    find_by_id = λ id. raise violation;
    find_by_email = λ email. raise violation;
  };
  write_dlq = λ m w. (ok tt, w ++ m ∷ []);
}

abbrev first_event : UserEvent
first_event = record { msg = a_message 0 "first"; user = a_user "u" "Bo" }

abbrev second_event : UserEvent
second_event = record { msg = a_message 1 "second"; user = a_user "u" "Al" }

dlq_failed-first_example :
    each
      (dlq_failed registration (first_event ∷ second_event ∷ []))
      (first_event.user ∷ second_event.user ∷ [])
      []
    ≡ each
        (λ u.
          send_to_dlq registration first_event.msg "Database constraint violation during upsert")
        (first_event.user ∷ second_event.user ∷ [])
        []
dlq_failed-first_example =
    dlq_failed-first registration [] (second_event ∷ []) first_event
      (first_event.user ∷ second_event.user ∷ []) [] refl (refl, (refl, tt))
