-- ===== src/Kafka/Loop/Balance.antt =====
-- What the loop has received, flushed, rejected and still gathers, and how these are kept in
-- balance.
use mathlib.Core.List.{append_assoc, append-nil}
use distributed_workflow_sys.Prelude.{
  ◌≡◌, refl, sym, ap, Option, none, some, Bool, true, false, not, List, [], ◌∷◌, ◌++◌, keep,
  keep-append, All-append, All,
}
use distributed_workflow_sys.Kafka.Loop.{
  Message, Event, got, deadline_exceeded, stopped, broken, overdue, Action, flush, reject, Phase,
  waiting, returned, gathering, finish,
}

-- The messages that were fetched before the reader was stopped.
unfoldable pub received : List Event → List Message
received [] = []
received (got msg ∷ events) = msg ∷ received events
received (stopped ∷ events) = []
received (deadline_exceeded ∷ events) = received events
received (broken ∷ events) = received events
received (overdue ∷ events) = received events

module _ {T : Type 0} where
  unfoldable pub flushed : List (Action T) → List Message
  flushed [] = []
  flushed (flush batch msgs ∷ actions) = msgs ++ flushed actions
  flushed (reject msg ∷ actions) = flushed actions

  unfoldable pub rejected : List (Action T) → List Message
  rejected [] = []
  rejected (flush batch msgs ∷ actions) = rejected actions
  rejected (reject msg ∷ actions) = msg ∷ rejected actions

  abbrev pub pending : Phase T → List Message
  pending waiting = []
  pending returned = []
  pending (gathering batch msgs) = msgs

  flushed-append : (xs ys : List (Action T)) → flushed (xs ++ ys) ≡ flushed xs ++ flushed ys
  unfolding flushed
  flushed-append [] ys = refl
  flushed-append (flush b m ∷ xs) ys = simp (flushed-append xs ys, append_assoc)
  flushed-append (reject m ∷ xs) ys = flushed-append xs ys

  rejected-append : (xs ys : List (Action T)) → rejected (xs ++ ys) ≡ rejected xs ++ rejected ys
  unfolding rejected
  rejected-append [] ys = refl
  rejected-append (flush b m ∷ xs) ys = rejected-append xs ys
  rejected-append (reject m ∷ xs) ys = ap (◌∷◌ m) (rejected-append xs ys)

-- The elements of a batch are the decoded messages, one by one.
module _ {T : Type 0} (decode : Message → Option T) where
  abbrev pub Fits : List T → List Message → Type 0
  Fits [] [] = Unit {0}
  Fits [] (m ∷ msgs) = ⊥
  Fits (t ∷ batch) [] = ⊥
  Fits (t ∷ batch) (m ∷ msgs) = (decode m ≡ some t) × Fits batch msgs

  abbrev pub decodes : Message → Bool
  decodes msg = elim (decode msg) [ none ↦ false | some _ ↦ true ]

  abbrev pub PhaseFits : Phase T → Type 0
  PhaseFits waiting = Unit {0}
  PhaseFits returned = Unit {0}
  PhaseFits (gathering batch msgs) = Fits batch msgs

  -- Each batch that is flushed is the decoding of its messages.
  abbrev pub ActionFits : Action T → Type 0
  ActionFits (flush batch msgs) = Fits batch msgs
  ActionFits (reject msg) = decode msg ≡ none

  pub Fits-snoc :
      (batch : List T) (msgs : List Message) (t : T) (m : Message)
      → Fits batch msgs
      → decode m ≡ some t
      → Fits (batch ++ t ∷ []) (msgs ++ m ∷ [])
  Fits-snoc [] [] t m f e = (e, tt)
  Fits-snoc [] (m' ∷ msgs) t m f e = absurd f
  Fits-snoc (t' ∷ batch) [] t m f e = absurd f
  Fits-snoc (t' ∷ batch) (m' ∷ msgs) t m f e = (f.0, Fits-snoc batch msgs t m f.1 e)

  pub finish-Fits :
      (batch : List T) (msgs : List Message) → Fits batch msgs → All ActionFits (finish batch msgs)
  finish-Fits [] msgs f = tt
  finish-Fits (t ∷ batch) msgs f = (f, tt)

  pub flushed-finish :
      (batch : List T) (msgs : List Message) → Fits batch msgs → flushed (finish batch msgs) ≡ msgs
  unfolding flushed
  flushed-finish [] [] f = refl
  flushed-finish [] (m ∷ msgs) f = absurd f
  flushed-finish (t ∷ batch) msgs f = append-nil msgs

  pub rejected-finish : (batch : List T) (msgs : List Message) → rejected (finish batch msgs) ≡ []
  unfolding rejected
  rejected-finish [] msgs = refl
  rejected-finish (t ∷ batch) msgs = refl

  -- What a step owes to the messages that were pending before it and those that arrived in it.
  pub record Conserves (before arrived : List Message) (after : List (Action T) × Phase T)
      : Type 0 where
    pub kept : flushed after.0 ++ pending after.1 ≡ before ++ keep decodes arrived
    pub dropped : rejected after.0 ≡ keep (λ m. not (decodes m)) arrived
    pub actions_fit : All ActionFits after.0
    pub phase_fits : PhaseFits after.1

module _ {T : Type 0} (decode : Message → Option T) where
  pub Conserves-nil : (p : Phase T) → PhaseFits decode p → Conserves decode (pending p) [] ([], p)
  unfolding flushed rejected
  Conserves-nil p f = record {
    kept = sym (append-nil (pending p));
    dropped = refl;
    actions_fit = tt;
    phase_fits = f;
  }

  pub Conserves-append :
      (before now_arrived later : List Message) (first : List (Action T) × Phase T)
      (rest : List (Action T) × Phase T)
      → Conserves decode before now_arrived first
      → Conserves decode (pending first.1) later rest
      → Conserves decode before (now_arrived ++ later) (first.0 ++ rest.0, rest.1)
  Conserves-append before now_arrived later first rest c r = record {
    kept =
        rw
          (
            flushed-append first.0 rest.0,
            append_assoc (flushed first.0) (flushed rest.0) (pending rest.1),
            r.kept,
            ← append_assoc (flushed first.0) (pending first.1) (keep (decodes decode) later),
            c.kept,
            append_assoc before (keep (decodes decode) now_arrived) (keep (decodes decode) later),
            keep-append (decodes decode) now_arrived later,
          )
          refl;
    dropped =
        rw
          (
            rejected-append first.0 rest.0,
            c.dropped,
            r.dropped,
            keep-append (λ m. not (decodes decode m)) now_arrived later,
          )
          refl;
    actions_fit = All-append (ActionFits decode) first.0 rest.0 c.actions_fit r.actions_fit;
    phase_fits = r.phase_fits;
  }
