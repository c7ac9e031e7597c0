-- ===== src/Kafka/Loop/Overtaking.antt =====
-- What the loop does with a message that does not decode while it gathers others.
use distributed_workflow_sys.Prelude.{
  ℕ, ◌+◌, ◌<◌, ◌≡◌, Option, none, true, List, [], ◌∷◌, ◌++◌, arith, map, length, length-append, ltb,
}
use distributed_workflow_sys.Kafka.Loop.{
  Message, Event, got, reject, waiting, gathering, enter, accept, step, run_loop,
}
use distributed_workflow_sys.Kafka.Loop.Balance.{Fits}

-- The messages are fetched, and then the one that does not decode.
abbrev pub then_bad : Message → List Message → List Event
then_bad bad msgs = map got msgs ++ got bad ∷ []

module _ {T : Type 0} (batch_size : ℕ) (decode : Message → Option T) (bad : Message) where
  run-gathering :
      (batch ts : List T) (gathered msgs : List Message)
      → Fits decode ts msgs
      → length batch + length msgs < batch_size
      → decode bad ≡ none
      → (run_loop batch_size decode (gathering batch gathered) (then_bad bad msgs)).0
        ≡ reject bad ∷ []
  unfolding run_loop step accept enter
  run-gathering batch [] gathered [] fits room h = ground arith
  run-gathering batch [] gathered (m ∷ msgs) fits room h = absurd fits
  run-gathering batch (t ∷ ts) gathered [] fits room h = absurd fits
  run-gathering batch (t ∷ ts) gathered (m ∷ msgs) fits room h =
      let longer : length (batch ++ t ∷ []) ≡ length batch + 1 = length-append batch (t ∷ []) in
      let more : ltb (length (batch ++ t ∷ [])) batch_size ≡ true = ground (arith, longer) in
      rw (fits.0, more)
        (run-gathering (batch ++ t ∷ []) ts (gathered ++ m ∷ []) msgs fits.1 (omega (arith, longer))
          h)

  pub run-then_bad :
      (ts : List T) (msgs : List Message)
      → Fits decode ts msgs
      → length msgs < batch_size
      → decode bad ≡ none
      → (run_loop batch_size decode waiting (then_bad bad msgs)).0 ≡ reject bad ∷ []
  unfolding run_loop step
  run-then_bad ts [] fits room h = run-gathering [] ts [] [] fits (omega arith) h
  run-then_bad ts (m ∷ msgs) fits room h = run-gathering [] ts [] (m ∷ msgs) fits (omega arith) h
