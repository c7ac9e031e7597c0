-- ===== src/Kafka/Loop.antt =====
-- The control flow of the RunLoop methods of services/workspace-service/internal/kafka
-- (task_handler.go, user_handlers.go), which differ in the type of an element, the batch size and
-- what they do with a message that does not decode. The nested `for` loops are a step function over
-- where they stand: in the outer FetchMessage, in the inner loop with a batch so far, or returned.
-- The environment is the sequence of events that the loop meets.
pub mod Balance
pub mod Conserve
pub mod Bounds
pub mod Overtaking
use distributed_workflow_sys.Prelude.{
  ℕ, Option, none, some, String, List, [], ◌∷◌, ◌++◌, length, ltb, if◌then◌else◌,
}

-- `kafka.Message`, as a reader returns it.
pub record Message : Type 0 where
  pub partition : ℕ
  pub offset : ℕ
  pub key : String
  pub value : String
  pub headers : List (String × String)

-- What FetchMessage returns: a message, `context.DeadlineExceeded`, `context.Canceled` or
-- `io.ErrClosedPipe`, or another error. `overdue` is the inner loop's look at the clock after the
-- flush deadline.
pub data Event : Type 0 where
  got : Message → Event
  deadline_exceeded stopped broken overdue : Event

-- A call of flushBatch, or the treatment of a message that does not decode.
pub data Action (T : Type 0) : Type 0 where
  flush : List T → List Message → Action T
  reject : Message → Action T

pub data Phase (T : Type 0) : Type 0 where
  waiting returned : Phase T
  gathering : List T → List Message → Phase T

module _ {T : Type 0} where
  -- `if len(batch) > 0 { h.flushBatch(…) }`
  abbrev pub finish : List T → List Message → List (Action T)
  finish [] msgs = []
  finish (t ∷ batch) msgs = flush (t ∷ batch) msgs ∷ []

module _ {T : Type 0} (batch_size : ℕ) (decode : Message → Option T) where
  -- The test `len(batch) < batchSize` of the inner loop.
  pub enter : List T → List Message → List (Action T) × Phase T
  enter batch msgs =
      if ltb (length batch) batch_size
      then ([], gathering batch msgs)
      else (finish batch msgs, waiting)

  -- A fetched message is decoded and joins the batch, or is rejected.
  pub accept : List T → List Message → Message → Option T → List (Action T) × Phase T
  unfolding enter
  accept batch msgs msg (some t) = enter (batch ++ t ∷ []) (msgs ++ msg ∷ [])
  accept batch msgs msg none =
      let (actions, phase) = enter batch msgs in (reject msg ∷ actions, phase)

  unfoldable pub step : Phase T → Event → List (Action T) × Phase T
  unfolding accept
  step waiting (got msg) = accept [] [] msg (decode msg)
  step waiting stopped = ([], returned)
  step waiting deadline_exceeded = ([], waiting)
  step waiting broken = ([], waiting)
  step waiting overdue = ([], waiting)
  step returned event = ([], returned)
  step (gathering batch msgs) (got msg) = accept batch msgs msg (decode msg)
  step (gathering batch msgs) stopped = (finish batch msgs, returned)
  step (gathering batch msgs) deadline_exceeded = (finish batch msgs, waiting)
  step (gathering batch msgs) broken = (finish batch msgs, waiting)
  step (gathering batch msgs) overdue = (finish batch msgs, waiting)

  -- The calls that the loop makes on a sequence of events, and where it then stands.
  unfoldable pub run_loop : Phase T → List Event → List (Action T) × Phase T
  unfolding step
  run_loop phase [] = ([], phase)
  run_loop phase (event ∷ events) =
      let (actions, phase') = step phase event in
      let (more, last) = run_loop phase' events in (actions ++ more, last)
