-- ===== src/Kafka/Loop/Conserve.antt =====
-- No message is lost or doubled between the fetch and the calls of flushBatch.
use mathlib.Core.List.{append-nil}
use distributed_workflow_sys.Prelude.{
  ℕ, ◌≡◌, refl, sym, ap, Option, none, some, not, inl, inr, List, [], ◌∷◌, ◌++◌, arith, keep, All,
  length, ltb, Bool-cases,
}
use distributed_workflow_sys.Kafka.Loop.{
  Message, Event, got, stopped, Phase, waiting, returned, gathering, finish, enter, accept, step,
  run_loop,
}
use distributed_workflow_sys.Kafka.Loop.Balance.{
  ActionFits, Conserves, Conserves-append, Conserves-nil, Fits, Fits-snoc, PhaseFits, decodes,
  finish-Fits, flushed, flushed-finish, pending, received, rejected, rejected-finish,
}

module _ {T : Type 0} (batch_size : ℕ) (decode : Message → Option T) where
  enter-Conserves :
      (batch : List T) (msgs : List Message)
      → Fits decode batch msgs
      → Conserves decode msgs [] (enter batch_size decode batch msgs)
  unfolding enter flushed rejected
  enter-Conserves batch msgs f = elim (Bool-cases (ltb (length batch) batch_size)) [
    | inl room ↦
        rw room (record {
          kept = sym (append-nil msgs);
          dropped = refl;
          actions_fit = tt;
          phase_fits = f;
        })
    | inr full ↦ rw full (record {
      kept = ap (λ l. l ++ []) (flushed-finish decode batch msgs f);
      dropped = rejected-finish decode batch msgs;
      actions_fit = finish-Fits decode batch msgs f;
      phase_fits = tt;
    })
  ]

  finish-Conserves :
      (batch : List T) (msgs : List Message) (phase : Phase T)
      → pending phase ≡ []
      → PhaseFits decode phase
      → Fits decode batch msgs
      → Conserves decode msgs [] (finish batch msgs, phase)
  finish-Conserves batch msgs phase none_left g f = record {
    kept = rw (none_left, flushed-finish decode batch msgs f) refl;
    dropped = rejected-finish decode batch msgs;
    actions_fit = finish-Fits decode batch msgs f;
    phase_fits = g;
  }

  accept-Conserves :
      (batch : List T) (msgs : List Message) (m : Message) (d : Option T)
      → decode m ≡ d
      → Fits decode batch msgs
      → Conserves decode msgs (m ∷ []) (accept batch_size decode batch msgs m d)
  unfolding accept flushed rejected
  accept-Conserves batch msgs m (some t) e f =
      let c =
        enter-Conserves (batch ++ t ∷ []) (msgs ++ m ∷ []) (Fits-snoc decode batch msgs t m f e) in
      record {
        kept = ground (arith, c.kept, append-nil (msgs ++ m ∷ []));
        dropped = ground (arith, c.dropped);
        actions_fit = c.actions_fit;
        phase_fits = c.phase_fits;
      }
  accept-Conserves batch msgs m none e f =
      let c = enter-Conserves batch msgs f in
      record {
        kept = ground (arith, c.kept);
        dropped = ground (arith, c.dropped);
        actions_fit = (e, c.actions_fit);
        phase_fits = c.phase_fits;
      }

  -- The messages that arrive in one step.
  abbrev arrived : Phase T → Event → List Message
  arrived returned event = []
  arrived waiting (got m) = m ∷ []
  arrived waiting event = []
  arrived (gathering batch msgs) (got m) = m ∷ []
  arrived (gathering batch msgs) event = []

  step-Conserves :
      (p : Phase T) (event : Event)
      → PhaseFits decode p
      → Conserves decode (pending p) (arrived p event) (step batch_size decode p event)
  unfolding step
  step-Conserves returned event f = finish-Conserves [] [] returned refl tt tt
  step-Conserves waiting (got m) f = accept-Conserves [] [] m (decode m) refl tt
  step-Conserves waiting stopped f = finish-Conserves [] [] returned refl tt tt
  step-Conserves waiting _ f = finish-Conserves [] [] waiting refl tt tt
  step-Conserves (gathering batch msgs) (got m) f = accept-Conserves batch msgs m (decode m) refl f
  step-Conserves (gathering batch msgs) stopped f = finish-Conserves batch msgs returned refl tt f
  step-Conserves (gathering batch msgs) _ f = finish-Conserves batch msgs waiting refl tt f

  -- The messages that the loop takes over a sequence of events.
  arrivals : Phase T → List Event → List Message
  unfolding received
  arrivals returned events = []
  arrivals waiting events = received events
  arrivals (gathering batch msgs) events = received events

  arrivals-enter :
      (batch : List T) (msgs : List Message) (events : List Event)
      → arrivals (enter batch_size decode batch msgs).1 events ≡ received events
  unfolding arrivals enter
  arrivals-enter batch msgs events = elim (Bool-cases (ltb (length batch) batch_size)) [
    | inl room ↦ rw room
    | inr full ↦ rw full
  ]

  arrivals-accept :
      (batch : List T) (msgs : List Message) (m : Message) (d : Option T) (events : List Event)
      → arrivals (accept batch_size decode batch msgs m d).1 events ≡ received events
  unfolding accept
  arrivals-accept batch msgs m (some t) events =
      arrivals-enter (batch ++ t ∷ []) (msgs ++ m ∷ []) events
  arrivals-accept batch msgs m none events = arrivals-enter batch msgs events

  arrivals-step :
      (p : Phase T) (event : Event) (events : List Event)
      → arrivals p (event ∷ events)
        ≡ arrived p event ++ arrivals (step batch_size decode p event).1 events
  unfolding step arrivals received
  arrivals-step returned event events = refl
  arrivals-step waiting (got m) events =
      ap (◌∷◌ m) (sym (arrivals-accept [] [] m (decode m) events))
  arrivals-step waiting _ events = refl
  arrivals-step (gathering batch msgs) (got m) events =
      ap (◌∷◌ m) (sym (arrivals-accept batch msgs m (decode m) events))
  arrivals-step (gathering batch msgs) _ events = refl

  arrivals-nil : (p : Phase T) → arrivals p [] ≡ []
  unfolding arrivals received
  arrivals-nil returned = refl
  arrivals-nil _ = refl

  run-Conserves :
      (p : Phase T) (events : List Event)
      → PhaseFits decode p
      → Conserves decode (pending p) (arrivals p events) (run_loop batch_size decode p events)
  unfolding run_loop
  run-Conserves p [] f = rw (arrivals-nil p) (Conserves-nil decode p f)
  run-Conserves p (event ∷ events) f =
      let s = step-Conserves p event f in
      rw (arrivals-step p event events) (
        Conserves-append decode (pending p) (arrived p event) _ (step batch_size decode p event) _ s
          (run-Conserves (step batch_size decode p event).1 events s.phase_fits))

  -- On any sequence of events, the messages that the loop hands to flushBatch, followed by those it
  -- still gathers, are exactly the decodable ones it received, in order; it rejects exactly the
  -- others, in order; and each flushed batch is the decoding of the messages flushed with it.
  pub run_loop-conserves :
      (events : List Event)
      → let (actions, last) = run_loop batch_size decode waiting events in
        (flushed actions ++ pending last ≡ keep (decodes decode) (received events))
        × (rejected actions ≡ keep (λ m. not (decodes decode m)) (received events))
        × All (ActionFits decode) actions
  unfolding arrivals
  run_loop-conserves events =
      let c = run-Conserves waiting events tt in (c.kept, c.dropped, c.actions_fit)
