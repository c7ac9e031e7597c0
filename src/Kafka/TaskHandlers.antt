-- ===== src/Kafka/TaskHandlers.antt =====
-- services/workspace-service/internal/kafka/task_handler.go: TaskCreatedHandler, TaskUpdatedHandler
-- and TaskStatusUpdatedHandler. `json.Unmarshal` is the parameter `decode`; `json.Marshal` is a
-- field of the runtime. The time limits on the database and dead-letter calls show as their errors.
pub mod Delivery
pub mod Overtaking
use distributed_workflow_sys.Prelude.{ℕ, Option, List, [], ◌∷◌}
use distributed_workflow_sys.Prelude.Act.{Act, ok, fail, pure, ignore}
use distributed_workflow_sys.Domain.Task.{Task, TaskStatusUpdate, TaskRepository}
use distributed_workflow_sys.Domain.Event.{Writer, Runtime}
use distributed_workflow_sys.Kafka.Loop.{Message, Event}
use distributed_workflow_sys.Kafka.Flush.{Reader, flush_batch, run}

pub record TaskHandler (W : Type 0) : Type 0 where
  pub task_repo : TaskRepository W
  pub dlq_writer : Writer W
  pub runtime : Runtime W

-- `batchSize := 1000`.
abbrev pub task_batch_size : ℕ
task_batch_size = 1000

module _ {W : Type 0} (h : TaskHandler W) where
  -- handleDLQ of the created and the updated handler.
  unfoldable pub handle_dlq : Task → Act W (Unit {0})
  handle_dlq t = elim (h.runtime.marshal_task t) [
    | fail err ↦ pure tt
    | ok task_json ↦ ignore (h.dlq_writer.write_messages (record { key = t.id; value = task_json }))
  ]

  unfoldable handle_dlq_status : TaskStatusUpdate → Act W (Unit {0})
  handle_dlq_status u = elim (h.runtime.marshal_status_update u) [
    | fail err ↦ pure tt
    | ok update_json ↦
        ignore (h.dlq_writer.write_messages (record { key = u.task_id; value = update_json }))
  ]

module _ {W : Type 0} (h : TaskHandler W) (reader : Reader W) where
  -- What RunLoop does with a message that does not decode.
  unfoldable commit_rejected : Message → Act W (Unit {0})
  commit_rejected msg = ignore (reader.commit_messages (msg ∷ []))

  -- TaskCreatedHandler.
  unfoldable flush_batch_created : List Task → List Message → Act W (Unit {0})
  unfolding handle_dlq
  flush_batch_created = flush_batch h.task_repo.bulk_create (handle_dlq h) reader

  unfoldable pub run_loop_created : (Message → Option Task) → List Event → Act W (Unit {0})
  unfolding handle_dlq commit_rejected
  run_loop_created =
      run h.task_repo.bulk_create (handle_dlq h) reader commit_rejected task_batch_size

  -- TaskUpdatedHandler.
  unfoldable flush_batch_updated : List Task → List Message → Act W (Unit {0})
  unfolding handle_dlq
  flush_batch_updated = flush_batch h.task_repo.bulk_update (handle_dlq h) reader

  unfoldable run_loop_updated : (Message → Option Task) → List Event → Act W (Unit {0})
  unfolding handle_dlq commit_rejected
  run_loop_updated =
      run h.task_repo.bulk_update (handle_dlq h) reader commit_rejected task_batch_size

  -- TaskStatusUpdatedHandler.
  unfoldable flush_batch_status : List TaskStatusUpdate → List Message → Act W (Unit {0})
  unfolding handle_dlq_status
  flush_batch_status = flush_batch h.task_repo.bulk_update_status (handle_dlq_status h) reader

  unfoldable run_loop_status : (Message → Option TaskStatusUpdate) → List Event → Act W (Unit {0})
  unfolding handle_dlq_status commit_rejected
  run_loop_status =
      run h.task_repo.bulk_update_status (handle_dlq_status h) reader commit_rejected
        task_batch_size
