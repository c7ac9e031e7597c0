-- ===== src/Kafka/Loop/Bounds.antt =====
-- The size of the batches.
use distributed_workflow_sys.Prelude.{
  ℕ, ◌≤◌, ◌<◌, Option, none, some, inl, inr, List, [], ◌∷◌, ◌++◌, arith, All, All-append, length,
  length-append, ltb, Bool-cases,
}
use distributed_workflow_sys.Kafka.Loop.{
  Message, Event, got, Action, flush, reject, Phase, waiting, returned, gathering, finish, enter,
  accept, step, run_loop,
}

module _ {T : Type 0} (batch_size : ℕ) where
  abbrev pub InBounds : Action T → Type 0
  InBounds (flush batch msgs) = (0 < length batch) × (length batch ≤ batch_size)
  InBounds (reject msg) = Unit {0}

  abbrev HasRoom : Phase T → Type 0
  HasRoom waiting = Unit {0}
  HasRoom returned = Unit {0}
  HasRoom (gathering batch msgs) = length batch < batch_size

  finish-InBounds :
      (batch : List T) (msgs : List Message)
      → length batch ≤ batch_size
      → All InBounds (finish batch msgs)
  finish-InBounds [] msgs h = tt
  finish-InBounds (t ∷ batch) msgs h = ((omega arith, h), tt)

  abbrev Bounded : List (Action T) × Phase T → Type 0
  Bounded r = All InBounds r.0 × HasRoom r.1

module _ {T : Type 0} (batch_size : ℕ) (decode : Message → Option T) where
  enter-Bounded :
      (batch : List T) (msgs : List Message)
      → length batch ≤ batch_size
      → Bounded batch_size (enter batch_size decode batch msgs)
  unfolding enter
  enter-Bounded batch msgs h = elim (Bool-cases (ltb (length batch) batch_size)) [
    | inl room ↦ rw room (tt, ground arith)
    | inr full ↦ rw full (finish-InBounds batch_size batch msgs h, tt)
  ]

  accept-Bounded :
      (batch : List T) (msgs : List Message) (m : Message) (d : Option T)
      → length batch < batch_size
      → Bounded batch_size (accept batch_size decode batch msgs m d)
  unfolding accept
  accept-Bounded batch msgs m (some t) h =
      enter-Bounded (batch ++ t ∷ []) (msgs ++ m ∷ []) (omega (arith, length-append batch (t ∷ [])))
  accept-Bounded batch msgs m none h =
      let b = enter-Bounded batch msgs (omega arith) in ((tt, b.0), b.1)

  step-Bounded :
      (p : Phase T) (event : Event)
      → 0 < batch_size
      → HasRoom batch_size p
      → Bounded batch_size (step batch_size decode p event)
  unfolding step
  step-Bounded returned event pos h = (tt, tt)
  step-Bounded waiting (got m) pos h = accept-Bounded [] [] m (decode m) pos
  step-Bounded waiting _ pos h = (tt, tt)
  step-Bounded (gathering batch msgs) (got m) pos h = accept-Bounded batch msgs m (decode m) h
  step-Bounded (gathering batch msgs) _ pos h =
      (finish-InBounds batch_size batch msgs (omega arith), tt)

  run-Bounded :
      (p : Phase T) (events : List Event)
      → 0 < batch_size
      → HasRoom batch_size p
      → Bounded batch_size (run_loop batch_size decode p events)
  unfolding run_loop
  run-Bounded p [] pos h = (tt, h)
  run-Bounded p (event ∷ events) pos h =
      let s = step-Bounded p event pos h in
      let r = run-Bounded (step batch_size decode p event).1 events pos s.1 in
      (All-append (InBounds batch_size) _ _ s.0 r.0, r.1)

  -- With a positive batch size, every batch that the loop flushes, on any events, has between one
  -- and `batch_size` elements.
  pub run_loop-InBounds :
      (events : List Event)
      → 0 < batch_size
      → All (InBounds batch_size) (run_loop batch_size decode waiting events).0
  run_loop-InBounds events pos = (run-Bounded waiting events pos tt).0
