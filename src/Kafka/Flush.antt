-- ===== src/Kafka/Flush.antt =====
-- flushBatch and the calls that a RunLoop makes, over the operations of one handler:
-- services/workspace-service/internal/kafka/task_handler.go, where the three handlers have the same
-- text at different types.
use distributed_workflow_sys.Prelude.{ℕ, Option, List}
use distributed_workflow_sys.Prelude.Act.{Act, ok, fail, ◌>>=◌, ◌>>◌, pure, attempt, ignore, each}
use distributed_workflow_sys.Kafka.Loop.{Message, Event, Action, flush, reject, waiting, run_loop}

-- `kafka.Reader`, but for FetchMessage, whose results are the events of the loop.
pub record Reader (W : Type 0) : Type 0 where
  pub commit_messages : List Message → Act W (Unit {0})

module _ {W T : Type 0} (store : List T → Act W (List T)) (handle_dlq : T → Act W (Unit {0}))
    (reader : Reader W) where
  -- A batch that met a connection error is left uncommitted. Otherwise what the database refused
  -- goes to the dead-letter topic and the whole batch is committed.
  unfoldable pub flush_batch : List T → List Message → Act W (Unit {0})
  flush_batch batch msgs = do
    r ← attempt (store batch)
    elim r [
      | fail err ↦ pure tt
      | ok failed ↦ do each handle_dlq failed; ignore (reader.commit_messages msgs)
    ]

  module _ (on_reject : Message → Act W (Unit {0})) where
    unfoldable pub perform : Action T → Act W (Unit {0})
    unfolding flush_batch
    perform (flush batch msgs) = flush_batch batch msgs
    perform (reject msg) = on_reject msg

    -- The whole loop over a sequence of events.
    unfoldable pub run : ℕ → (Message → Option T) → List Event → Act W (Unit {0})
    unfolding perform run_loop
    run batch_size decode events = each perform (run_loop batch_size decode waiting events).0
