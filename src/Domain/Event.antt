-- ===== src/Domain/Event.antt =====
-- Notification payloads (services/workspace-service/internal/domain/global.go), and what the code
-- uses of kafka-go, encoding/json, google/uuid and the clock. Those are not part of the repository,
-- so they are fields of a record that the services take.
use distributed_workflow_sys.Prelude.{ℕ, String}
use distributed_workflow_sys.Prelude.Act.{Act, Result}
use distributed_workflow_sys.Domain.Task.{Task, TaskStatusUpdate}

pub record NotificationEventPayload : Type 0 where
  pub channel : String
  pub user_id : String
  pub title : String
  pub message : String
  pub kind : String

-- `kafka.Message`, as the writers fill it.
pub record Message : Type 0 where
  pub key : String
  pub value : String

-- `kafka.Writer`.
pub record Writer (W : Type 0) : Type 0 where
  pub write_messages : Message → Act W (Unit {0})

pub record Runtime (W : Type 0) : Type 0 where
  pub new_v7 : Act W String
  pub new_v4 : Act W String
  pub now : W → ℕ × W
  pub marshal_task : Task → Result String
  pub marshal_status_update : TaskStatusUpdate → Result String
  pub marshal_notification : NotificationEventPayload → Result String
