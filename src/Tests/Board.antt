-- ===== src/Tests/Board.antt =====
-- The theorems on the task service, at the workspace of Tests/TaskService.antt.
use distributed_workflow_sys.Prelude.{
  ◌≡◌, ◌≢◌, subst, String, Option, none, some, [], ◌==◌, if◌then◌else◌,
}
use distributed_workflow_sys.Prelude.Act.{fail, no_rows}
use distributed_workflow_sys.Prelude.Keeps.{Keeps-if, Returns}
use distributed_workflow_sys.Domain.Task.{TaskUpdateInput, TaskCreateInput}
use distributed_workflow_sys.Task.Service.Update.{update_full_task}
use distributed_workflow_sys.Task.Service.Update.Stale.{Replaced, update_full_task-Returns}
use distributed_workflow_sys.Task.Quiet.{Quiet}
use distributed_workflow_sys.Tests.TaskService.{World, done, service}

abbrev or_empty : Option String → String
or_empty none = ""
or_empty (some s) = s

abbrev Named : String → Type 0
Named s = if s == "" then ⊥ else Unit {0}

pub proper_name : (s : String) → Named s → s ≢ ""
proper_name s h e = subst Named e h

-- Nothing has been published.
abbrev pub Silent : World → Type 0
Silent w = w ≡ []

pub quiet : Quiet service Silent
quiet = record {
  find_task = λ a b w h. h;
  get_task_metas = λ ids w h. h;
  set_task_meta = λ t w h. h;
  find_workspace = λ a b w h. h;
  find_role = λ a b.
      Keeps-if (b == "anna") (done "ADMIN") _ (λ w h. h)
        (Keeps-if (b == "bob") (done "MEMBER") (λ w. (fail no_rows, w)) (λ w h. h) (λ w h. h));
  get_workspace_meta = λ id w h. h;
  set_workspace_meta = λ ws w h. h;
  get_role = λ a b w h. h;
  set_role = λ a b role w h. h;
}

abbrev pub create_input : TaskCreateInput
create_input = record {
  title = "Plan";
  description = "";
  priority = "LOW";
  assignee_id = "anna";
  deadline = 0;
}

abbrev pub update_input : TaskUpdateInput
update_input = record {
  title = "Plan";
  description = "";
  priority = "LOW";
  assignee_id = "anna";
  deadline = 0;
}

update_full_task-Returns_example :
    Returns
      (Replaced service "ws" "1" "anna" update_input [])
      (update_full_task service "ws" "1" update_input "anna" []).0
update_full_task-Returns_example = update_full_task-Returns service "ws" "1" "anna" update_input []
