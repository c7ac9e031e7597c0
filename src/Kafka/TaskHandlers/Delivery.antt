-- ===== src/Kafka/TaskHandlers/Delivery.antt =====
-- The task-created pipeline from the fetched messages to the tasks table: RunLoop, flushBatch,
-- BulkCreate and the dead-letter writer together.
use mathlib.Core.List.{map-append}
use distributed_workflow_sys.Prelude.{
  ◌≡◌, refl, sym, ap₂, Option, some, Bool, String, List, [], ◌∷◌, ◌++◌, keep, map, All,
}
use distributed_workflow_sys.Prelude.Act.{Act, ok}
use distributed_workflow_sys.Domain.Task.{Task}
use distributed_workflow_sys.Domain.Event
use distributed_workflow_sys.Sql.{Statement, Value}
use distributed_workflow_sys.Bulk.Exact.{AtomicBatch, good, store_all}
use distributed_workflow_sys.Task.Repository.{create_row, bulk_create_batch, bulk_create}
use distributed_workflow_sys.Task.Repository.Rows.{bulk_create-exact}
use distributed_workflow_sys.Task.Repository.Conflict.{insert_new}
use distributed_workflow_sys.Kafka.Loop.{Message, Event, Action, flush, reject, waiting, run_loop}
use distributed_workflow_sys.Kafka.Loop.Balance.{
  received, flushed, pending, decodes, Fits, ActionFits,
}
use distributed_workflow_sys.Kafka.Loop.Conserve.{run_loop-conserves}
use distributed_workflow_sys.Kafka.Flush.{Reader}
use distributed_workflow_sys.Kafka.Accounts.{
  Registers, Adds, Adds-nil, Adds-trans, Delivers, batched, settled, run_accounts,
}
use distributed_workflow_sys.Kafka.TaskHandlers.{
  TaskHandler, task_batch_size, handle_dlq, run_loop_created,
}

-- What the pipeline relies on: the repository is the one over `exec`, whose batch insertion is
-- atomic and refused exactly for a bad row; a task that is stored adds its row, unless the table
-- has one with its id and workspace; tasks marshal; the dead-letter writer and the commit accept.
pub record Delivery {W : Type 0} (h : TaskHandler W) (reader : Reader W)
    (exec : Statement → Act W (Unit {0})) (r : Registers W (List Value) Event.Message)
    (bad : Task → Bool) (store : Task → W → W) (json : Task → String) : Type 0 where
  pub repository : h.task_repo.bulk_create ≡ bulk_create exec
  pub atomic : AtomicBatch (bulk_create_batch exec) bad store
  pub stores_one : (t : Task) (w : W) → Adds insert_new r w (store t w) (create_row t ∷ []) [] []
  pub marshals : (t : Task) → h.runtime.marshal_task t ≡ ok (json t)
  pub writes :
      (m : Event.Message) (w : W)
      → (w' : W) × (h.dlq_writer.write_messages m w ≡ (ok tt, w'))
        × Adds insert_new r w w' [] (m ∷ []) []
  pub commits :
      (msgs : List Message) (w : W)
      → (w' : W) × (reader.commit_messages msgs w ≡ (ok tt, w')) × Adds insert_new r w w' [] [] msgs

-- The dead letter of a task, whose key is its id.
abbrev pub letter : (Task → String) → Task → Event.Message
letter json t = record { key = t.id; value = json t }

-- The decoded elements of the flushed batches are those of the flushed messages.
batched-decodes :
    {T : Type 0} (decode : Message → Option T) (batch : List T) (msgs : List Message)
    → Fits decode batch msgs
    → map some batch ≡ map decode msgs
batched-decodes decode [] [] f = refl
batched-decodes decode [] (m ∷ msgs) f = absurd f
batched-decodes decode (t ∷ batch) [] f = absurd f
batched-decodes decode (t ∷ batch) (m ∷ msgs) f =
    ap₂ (λ a as'. a ∷ as') (sym f.0) (batched-decodes decode batch msgs f.1)

actions-decode :
    {T : Type 0} (decode : Message → Option T) (actions : List (Action T))
    → All (ActionFits decode) actions
    → map some (batched actions) ≡ map decode (flushed actions)
unfolding batched flushed
actions-decode decode [] f = refl
actions-decode decode (flush batch msgs ∷ actions) f =
    rw
      (
        map-append some batch (batched actions),
        batched-decodes decode batch msgs f.0,
        actions-decode decode actions f.1,
        map-append decode msgs (flushed actions),
      )
      refl
actions-decode decode (reject msg ∷ actions) f = actions-decode decode actions f.1

module _ {W : Type 0} (h : TaskHandler W) (reader : Reader W) (exec : Statement → Act W (Unit {0}))
    (r : Registers W (List Value) Event.Message) (bad : Task → Bool) (store : Task → W → W)
    (json : Task → String) (d : Delivery h reader exec r bad store json) where
  store_all-Adds :
      (ts : List Task) (w : W)
      → Adds insert_new r w (store_all store ts w) (map create_row ts) [] []
  store_all-Adds [] w = Adds-nil insert_new r w
  store_all-Adds (t ∷ ts) w =
      Adds-trans insert_new r (create_row t ∷ []) (map create_row ts) [] [] [] [] (d.stores_one t w)
        (store_all-Adds ts (store t w))

  delivers :
      Delivers insert_new r create_row h.task_repo.bulk_create
        (handle_dlq h)
        reader
        bad
        (letter json)
  unfolding handle_dlq
  delivers = record {
    stores = λ batch w. (
      store_all store (keep (good bad) batch) w,
      rw (d.repository, bulk_create-exact exec bad store d.atomic batch w) refl,
      store_all-Adds (keep (good bad) batch) w,
    );
    buries = λ t w.
        let (w', e, a) = d.writes (letter json t) w in
        (w', rw (d.marshals t, e, handle_dlq) refl, a);
    commits = d.commits;
  }

  -- With a database whose batch insertion is atomic, refused exactly for a bad row and without
  -- effect for a row whose id and workspace are in the table, and a dead-letter writer and commits
  -- that accept, for every decoding and sequence of events: the loop inserts the rows of the good
  -- tasks of its batches, writes a dead letter for each bad one and commits its messages, each in
  -- order and each once; the tasks of the batches are the decodings of the messages flushed; and
  -- those, with the ones still gathered, are all the decodable messages received.
  pub task_created-delivers :
      (decode : Message → Option Task) (events : List Event) (w : W)
      → let (actions, last) = run_loop task_batch_size decode waiting events in
        (w' : W) × (run_loop_created h reader decode events w ≡ (ok tt, w'))
        × Adds insert_new r w w'
            (map create_row (keep (good bad) (batched actions)))
            (map (letter json) (keep bad (batched actions)))
            (settled actions)
        × (map some (batched actions) ≡ map decode (flushed actions))
        × (flushed actions ++ pending last ≡ keep (decodes decode) (received events))
  unfolding run_loop_created
  task_created-delivers decode events w =
      let (w', e, a) =
        run_accounts insert_new r create_row h.task_repo.bulk_create (handle_dlq h) reader bad
          (letter json) delivers task_batch_size decode events w in
      let (kept, _, fit) = run_loop-conserves task_batch_size decode events in
      (w', e, a, actions-decode decode _ fit, kept)
