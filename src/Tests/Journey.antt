-- ===== src/Tests/Journey.antt =====
-- The way of one task from the request to its row.
use mathlib.Core.List.Memᴰ
use distributed_workflow_sys.Prelude.{◌≡◌, refl, sym, String, Option, none, some, List, [], ◌∷◌}
use distributed_workflow_sys.Prelude.Act.{ok}
use distributed_workflow_sys.Domain.Task.{Task}
use distributed_workflow_sys.Kafka.Loop.{Message, Event, got, deadline_exceeded, run_loop}
use distributed_workflow_sys.Kafka.Loop.Balance.{received}
use distributed_workflow_sys.Kafka.TaskHandlers.{run_loop_created}
use distributed_workflow_sys.Task.Service.{check_access, find_assignee_name, send_task_created}
use distributed_workflow_sys.Task.Service.Create.{create_task}
use distributed_workflow_sys.Task.Journey.{
  some_inj, Published, StoredOrBuried, create_task-StoredOrBuried,
}
use distributed_workflow_sys.Tests.Board.{create_input}
use distributed_workflow_sys.Tests.Database.{Db, empty_db, exec, is_bad, store}
use distributed_workflow_sys.Tests.Pipeline.{handler, reader, registers, delivery, a_message}
use distributed_workflow_sys.Tests.TaskService.{World, service}

abbrev json : Task → String
json t = t.title

abbrev created_task : Task
created_task = record {
  id = "9";
  workspace_id = "ws";
  project_id = "p";
  title = "Plan";
  description = "";
  status = "TODO";
  priority = "LOW";
  assignee_id = "anna";
  assignee_name = none;
  deadline = 0;
  created_at = 5;
}

abbrev after_creation : World
after_creation = (create_task service "ws" "p" create_input "anna" []).1

-- The message is delivered twice.
abbrev events : List Event
events = got (a_message 0 "Plan") ∷ got (a_message 0 "Plan") ∷ deadline_exceeded ∷ []

abbrev decode : Message → Option Task
decode m = some created_task

create_task-StoredOrBuried_example :
    Published service json (λ t. refl) created_task
    × (w' : Db) × (run_loop_created handler reader decode events empty_db ≡ (ok tt, w'))
    × StoredOrBuried handler reader exec registers is_bad store json delivery created_task w'
unfolding create_task check_access received run_loop find_assignee_name send_task_created
create_task-StoredOrBuried_example =
    create_task-StoredOrBuried service handler reader exec registers is_bad store json delivery
      (λ t. refl) "ws" "p" create_input "anna" created_task [] after_creation decode events
      (a_message 0 "Plan") empty_db refl refl (Memᴰ.head refl) refl tt
      (λ other u received e same. some_inj u created_task (sym e))
