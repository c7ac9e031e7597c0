-- ===== src/Kafka/TaskHandlers/Overtaking.antt =====
-- A message that does not decode, behind others that the task-created consumer has gathered.
use mathlib.Core.List.{append-nil}
use distributed_workflow_sys.Prelude.{
  ◌<◌, ◌≡◌, subst, Option, none, Bool, String, List, [], ◌∷◌, ◌++◌, keep, length, map, ◌∙◌, put_all,
}
use distributed_workflow_sys.Prelude.Act.{Act, ok}
use distributed_workflow_sys.Domain.Task.{Task}
use distributed_workflow_sys.Domain.Event
use distributed_workflow_sys.Sql.{Statement, Value}
use distributed_workflow_sys.Bulk.Exact.{good}
use distributed_workflow_sys.Task.Repository.{create_row}
use distributed_workflow_sys.Task.Repository.Conflict.{insert_new}
use distributed_workflow_sys.Kafka.Loop.{Message, Action}
use distributed_workflow_sys.Kafka.Loop.Balance.{Fits}
use distributed_workflow_sys.Kafka.Loop.Overtaking.{then_bad, run-then_bad}
use distributed_workflow_sys.Kafka.Flush.{Reader}
use distributed_workflow_sys.Kafka.Accounts.{Registers, batched, settled}
use distributed_workflow_sys.Kafka.TaskHandlers.{TaskHandler, task_batch_size, run_loop_created}
use distributed_workflow_sys.Kafka.TaskHandlers.Delivery.{Delivery, letter, task_created-delivers}

module _ {W : Type 0} (h : TaskHandler W) (reader : Reader W) (exec : Statement → Act W (Unit {0}))
    (r : Registers W (List Value) Event.Message) (bad : Task → Bool) (store : Task → W → W)
    (json : Task → String) (d : Delivery h reader exec r bad store json) where
  -- The registers after the calls.
  abbrev Shown : List (Action Task) → W → W → Type 0
  Shown actions w w' =
      (r.stored w'
        ≡ put_all insert_new (map create_row (keep (good bad) (batched actions))) (r.stored w))
      × (r.dead w' ≡ r.dead w ++ map (letter json) (keep bad (batched actions)))
      × (r.committed w' ≡ r.committed w ++ settled actions)

  -- With the database and the writers of the pipeline, when the consumer has fetched messages that
  -- decode, fewer than a batch, and then one that does not: the offset of the latter is committed,
  -- and nothing else is, while no task of the former is stored or dead-lettered.
  pub run_loop_created-overtakes :
      (decode : Message → Option Task) (ts : List Task) (msgs : List Message)
      (undecodable : Message) (w : W)
      → Fits decode ts msgs
      → length msgs < task_batch_size
      → decode undecodable ≡ none
      → (w' : W) × (run_loop_created h reader decode (then_bad undecodable msgs) w ≡ (ok tt, w'))
        × (r.committed w' ≡ r.committed w ++ undecodable ∷ [])
        × (r.stored w' ≡ r.stored w)
        × (r.dead w' ≡ r.dead w)
  unfolding batched settled
  run_loop_created-overtakes decode ts msgs undecodable w fits room undecoded =
      let events = then_bad undecodable msgs in
      let (w', ran, adds, _, _) =
        task_created-delivers h reader exec r bad store json d decode events w in
      let (stored, dead, committed) =
        subst (λ actions. Shown actions w w')
          (run-then_bad task_batch_size decode undecodable ts msgs fits room undecoded)
          (adds.stored_adds, adds.dead_adds, adds.committed_adds) in
      (w', ran, committed, stored, dead ∙ append-nil _)
