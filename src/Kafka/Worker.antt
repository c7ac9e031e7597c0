-- ===== src/Kafka/Worker.antt =====
-- services/workspace-service/internal/kafka/worker.go. A topic's handler is one for single messages
-- or one with a loop of its own. The environment of a consumer is the sequence of results of
-- FetchMessage; the consumers run in goroutines of their own, and logging is left out.
pub mod Fetching
use distributed_workflow_sys.Prelude.{String, Option, none, some, List, [], ◌∷◌, ◌++◌}
use distributed_workflow_sys.Prelude.Act.{Act, Result, ok, fail, ◌>>=◌, ◌>>◌, pure, ignore}
use distributed_workflow_sys.Kafka.Loop.{Message}
use distributed_workflow_sys.Task.Service.Listing.{put, get}

-- KafkaEventHandler, and KafkaLoopHandler as what it makes of the fetches.
pub data Handler (W : Type 0) : Type 0 where
  handles : (Message → Act W (Unit {0})) → Handler W
  loops : (List (Result Message) → Act W (Unit {0})) → Handler W

pub record Worker (W : Type 0) : Type 0 where
  pub readers : List String
  pub handlers : List (String × Handler W)

module _ {W : Type 0} where
  abbrev pub new_worker : Worker W
  new_worker = record { readers = []; handlers = [] }

  -- A reader goes by its topic.
  unfoldable pub add_topic_handler : Worker W → String → Handler W → Worker W
  add_topic_handler w topic handler = record {
    readers = w.readers ++ topic ∷ [];
    handlers = put topic handler w.handlers;
  }

  -- The loop over single messages: every error of a fetch ends it, and the error of a commit does
  -- not.
  unfoldable pub consume :
      (Message → Act W (Unit {0}))
      → (Message → Act W (Unit {0}))
      → List (Result Message)
      → Act W (Unit {0})
  consume handle commit [] = pure tt
  consume handle commit (fail err ∷ fetches) = pure tt
  consume handle commit (ok msg ∷ fetches) = do
    ignore (handle msg)
    ignore (commit msg)
    consume handle commit fetches

  unfoldable pub run_reader :
      (Message → Act W (Unit {0})) → Option (Handler W) → List (Result Message) → Act W (Unit {0})
  unfolding consume
  run_reader commit (some (loops run_loop)) fetches = run_loop fetches
  run_reader commit (some (handles handle)) fetches = consume handle commit fetches
  run_reader commit none fetches = pure tt

  -- One reader's goroutine in Start.
  unfoldable pub start_reader :
      Worker W → (Message → Act W (Unit {0})) → String → List (Result Message) → Act W (Unit {0})
  unfolding run_reader
  start_reader w commit topic fetches = run_reader commit (get topic w.handlers) fetches
