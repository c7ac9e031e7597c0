-- ===== src/Task/Repository/Rows.antt =====
-- What the bulk operations of internal/task/repository.go hand to the database, and what they
-- achieve there.
use distributed_workflow_sys.Prelude.{ℕ, ◌+◌, ◌*◌, ◌≤◌, length, ◌≡◌, refl, some, Bool, List, map}
use distributed_workflow_sys.Prelude.Act.{Act, Result}
use distributed_workflow_sys.Domain.Task.{Task, TaskStatusUpdate}
use distributed_workflow_sys.Sql.{Statement, resolved}
use distributed_workflow_sys.Sql.Resolve.{placeholder_rows-resolved}
use distributed_workflow_sys.Bulk.Exact.{AtomicBatch, Outcome, bulk-exact}
use distributed_workflow_sys.Bulk.Cost.{bulk-cost}
use distributed_workflow_sys.Bulk.Failed.{Sound, bulk-Sound}
use distributed_workflow_sys.Task.Repository.{
  create_casts, create_row, create_statement, update_casts, update_row, update_statement,
  status_casts, status_row, status_statement, bulk_create_batch, bulk_create, bulk_update,
  bulk_update_status, bulk_update_batch, bulk_update_status_batch,
}

-- For any batches, the three batch statements hand over exactly one row of values for each element,
-- in order, with every placeholder bound to the value of its own column.
pub statements-resolved :
    (created updated : List Task) (moved : List TaskStatusUpdate)
    → (resolved (create_statement created) ≡ map (λ t. map some (create_row t)) created)
      × (resolved (update_statement updated) ≡ map (λ t. map some (update_row t)) updated)
      × (resolved (status_statement moved) ≡ map (λ u. map some (status_row u)) moved)
unfolding create_statement update_statement status_statement create_row update_row status_row
statements-resolved created updated moved = (
  placeholder_rows-resolved create_casts create_row (λ t. refl) created,
  placeholder_rows-resolved update_casts update_row (λ t. refl) updated,
  placeholder_rows-resolved status_casts status_row (λ u. refl) moved,
)

module _ {W : Type 0} (exec : Statement → Act W (Unit {0})) where
  -- Where the insertion of a batch is atomic and refused exactly for a bad row, `bulk_create`
  -- stores the good tasks in order and returns the bad ones in order, for every batch.
  pub bulk_create-exact :
      (bad : Task → Bool) (store : Task → W → W)
      → AtomicBatch (bulk_create_batch exec) bad store
      → (tasks : List Task) (w : W) → bulk_create exec tasks w ≡ Outcome bad store tasks w
  unfolding bulk_create
  bulk_create-exact bad store law = bulk-exact (bulk_create_batch exec) bad store law

  -- The outcome of an operation on a batch is sound, and a count of statements has grown by at most
  -- two for each element.
  abbrev pub SoundAtCost : {A : Type 0} → (W → ℕ) → List A → W → Result (List A) × W → Type 0
  SoundAtCost count batch w (r, w') = Sound batch r × (count w' ≤ count w + 2 * length batch)

  -- Whatever the database answers, the bulk creation, update and status update each end, having
  -- executed at most two statements for each element of their batch, and return some of the batch
  -- in its order or fail with a connection error. `count` is any number that a statement raises by
  -- at most one.
  pub bulk_operations-Sound :
      (count : W → ℕ) (tasks : List Task) (updates : List TaskStatusUpdate) (w : W)
      → ((statement : Statement) (v : W) → count (exec statement v).1 ≤ count v + 1)
      → SoundAtCost count tasks w (bulk_create exec tasks w)
        × SoundAtCost count tasks w (bulk_update exec tasks w)
        × SoundAtCost count updates w (bulk_update_status exec updates w)
  unfolding bulk_create bulk_update bulk_update_status bulk_create_batch bulk_update_batch
      bulk_update_status_batch
  bulk_operations-Sound count tasks updates w one = (
    (
      bulk-Sound (bulk_create_batch exec) tasks w,
      bulk-cost (bulk_create_batch exec) count (λ ts v. one (create_statement ts) v) tasks w,
    ),
    (
      bulk-Sound (bulk_update_batch exec) tasks w,
      bulk-cost (bulk_update_batch exec) count (λ ts v. one (update_statement ts) v) tasks w,
    ),
    (
      bulk-Sound (bulk_update_status_batch exec) updates w,
      bulk-cost (bulk_update_status_batch exec) count (λ us v. one (status_statement us) v) updates
          w,
    ),
  )
