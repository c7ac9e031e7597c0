-- ===== src/Kafka/Accounts.antt =====
-- Where every message of a topic ends up, as long as the database answers and the writers accept.
use mathlib.Core.List.{append_assoc, append-nil, map-append}
use distributed_workflow_sys.Prelude.{
  ℕ, ◌≡◌, refl, sym, ap, ◌∙◌, Option, Bool, List, [], ◌∷◌, ◌++◌, keep, keep-append, map, put_all,
  put_all-append,
}
use distributed_workflow_sys.Prelude.Act.{Act, ok, ◌>>=◌, ignore, each}
use distributed_workflow_sys.Bulk.Exact.{good}
use distributed_workflow_sys.Kafka.Loop.{Message, Event, Action, flush, reject, waiting, run_loop}
use distributed_workflow_sys.Kafka.Flush.{Reader, flush_batch, perform, run}

-- Three registers of the world: the rows stored, the dead letters and the committed messages.
pub record Registers (W S L : Type 0) : Type 0 where
  pub stored : W → List S
  pub dead : W → List L
  pub committed : W → List Message

-- What a call has added to each register. `put` says how a row enters the table.
pub record Adds {W S L : Type 0} (put : S → List S → List S) (r : Registers W S L) (w w' : W)
    (ts : List S) (ls : List L) (ms : List Message) : Type 0 where
  pub stored_adds : r.stored w' ≡ put_all put ts (r.stored w)
  pub dead_adds : r.dead w' ≡ r.dead w ++ ls
  pub committed_adds : r.committed w' ≡ r.committed w ++ ms

module _ {W S L : Type 0} (put : S → List S → List S) (r : Registers W S L) where
  pub Adds-nil : (w : W) → Adds put r w w [] [] []
  Adds-nil w = record {
    stored_adds = refl;
    dead_adds = sym (append-nil _);
    committed_adds = sym (append-nil _);
  }

  pub Adds-trans :
      {w w1 w2 : W} (ts us : List S) (ls ks : List L) (ms ns : List Message)
      → Adds put r w w1 ts ls ms
      → Adds put r w1 w2 us ks ns
      → Adds put r w w2 (ts ++ us) (ls ++ ks) (ms ++ ns)
  Adds-trans ts us ls ks ms ns a b = record {
    stored_adds =
        b.stored_adds ∙ ap (put_all put us) a.stored_adds ∙ sym (put_all-append put ts us _);
    dead_adds = b.dead_adds ∙ ap (λ l. l ++ ks) a.dead_adds ∙ append_assoc _ ls ks;
    committed_adds = b.committed_adds ∙ ap (λ l. l ++ ns) a.committed_adds ∙ append_assoc _ ms ns;
  }

-- The database stores the rows of the good elements of a batch and reports the bad ones; a dead
-- letter is written; a commit is accepted.
pub record Delivers {W T S L : Type 0} (put : S → List S → List S) (r : Registers W S L)
    (shown : T → S) (store : List T → Act W (List T)) (handle_dlq : T → Act W (Unit {0}))
    (reader : Reader W) (bad : T → Bool) (letter : T → L) : Type 0 where
  pub stores :
      (batch : List T) (w : W)
      → (w' : W) × (store batch w ≡ (ok (keep bad batch), w'))
        × Adds put r w w' (map shown (keep (good bad) batch)) [] []
  pub buries :
      (t : T) (w : W)
      → (w' : W) × (handle_dlq t w ≡ (ok tt, w')) × Adds put r w w' [] (letter t ∷ []) []
  pub commits :
      (msgs : List Message) (w : W)
      → (w' : W) × (reader.commit_messages msgs w ≡ (ok tt, w')) × Adds put r w w' [] [] msgs

module _ {T : Type 0} where
  -- The elements of the flushed batches.
  unfoldable pub batched : List (Action T) → List T
  batched [] = []
  batched (flush batch msgs ∷ actions) = batch ++ batched actions
  batched (reject msg ∷ actions) = batched actions

  -- The messages that the calls are responsible for.
  unfoldable pub settled : List (Action T) → List Message
  settled [] = []
  settled (flush batch msgs ∷ actions) = msgs ++ settled actions
  settled (reject msg ∷ actions) = msg ∷ settled actions

module _ {W T S L : Type 0} (put : S → List S → List S) (r : Registers W S L) (shown : T → S)
    (store : List T → Act W (List T)) (handle_dlq : T → Act W (Unit {0})) (reader : Reader W)
    (bad : T → Bool) (letter : T → L)
    (law : Delivers put r shown store handle_dlq reader bad letter) where
  buried :
      (ts : List T) (w : W)
      → (w' : W) × (each handle_dlq ts w ≡ (ok tt, w')) × Adds put r w w' [] (map letter ts) []
  buried [] w = (w, refl, Adds-nil put r w)
  buried (t ∷ ts) w =
      let (w1, e1, a1) = law.buries t w in
      let (w2, e2, a2) = buried ts w1 in
      (w2, rw (◌>>=◌, e1) e2, Adds-trans put r [] [] (letter t ∷ []) (map letter ts) [] [] a1 a2)

  flushed-Adds :
      (batch : List T) (msgs : List Message) (w : W)
      → (w' : W) × (flush_batch store handle_dlq reader batch msgs w ≡ (ok tt, w'))
        × Adds put r w w' (map shown (keep (good bad) batch)) (map letter (keep bad batch)) msgs
  unfolding flush_batch
  flushed-Adds batch msgs w =
      let (w1, e1, a1) = law.stores batch w in
      let (w2, e2, a2) = buried (keep bad batch) w1 in
      let (w3, e3, a3) = law.commits msgs w2 in
      (
        w3,
        rw (e1, e2, e3) refl,
        record {
          stored_adds = a3.stored_adds ∙ a2.stored_adds ∙ a1.stored_adds;
          dead_adds = simp (a3.dead_adds, a2.dead_adds, a1.dead_adds, append-nil);
          committed_adds =
              simp (a3.committed_adds, a2.committed_adds, a1.committed_adds, append-nil);
        },
      )

  performed-Adds :
      (actions : List (Action T)) (w : W)
      → (w' : W) × (each
            (perform store handle_dlq reader (λ msg. ignore (reader.commit_messages (msg ∷ []))))
            actions
            w
          ≡ (ok tt, w'))
        × Adds put r w w'
            (map shown (keep (good bad) (batched actions)))
            (map letter (keep bad (batched actions)))
            (settled actions)
  unfolding batched settled perform
  performed-Adds [] w = (w, refl, Adds-nil put r w)
  performed-Adds (flush batch msgs ∷ actions) w =
      let (w1, e1, a1) = flushed-Adds batch msgs w in
      let (w2, e2, a2) = performed-Adds actions w1 in
      (
        w2,
        rw e1 e2,
        rw
            (
              keep-append (good bad) batch (batched actions),
              keep-append bad batch (batched actions),
              map-append shown (keep (good bad) batch) (keep (good bad) (batched actions)),
              map-append letter (keep bad batch) (keep bad (batched actions)),
            )
            (Adds-trans put r _ _ _ _ _ _ a1 a2),
      )
  performed-Adds (reject msg ∷ actions) w =
      let (w1, e1, a1) = law.commits (msg ∷ []) w in
      let (w2, e2, a2) = performed-Adds actions w1 in
      (w2, rw e1 e2, Adds-trans put r [] _ [] _ (msg ∷ []) _ a1 a2)

  -- If the database stores the good elements of each batch and the writers accept, then for every
  -- batch size, decoding and sequence of events: the rows it is given, the dead letters and the
  -- commits are exactly those of the good elements, the bad elements and the messages, in order.
  pub run_accounts :
      (batch_size : ℕ) (decode : Message → Option T) (events : List Event) (w : W)
      → let actions = (run_loop batch_size decode waiting events).0 in
        (w' : W) × (run store handle_dlq reader
            (λ msg. ignore (reader.commit_messages (msg ∷ [])))
            batch_size
            decode
            events
            w
          ≡ (ok tt, w'))
        × Adds put r w w'
            (map shown (keep (good bad) (batched actions)))
            (map letter (keep bad (batched actions)))
            (settled actions)
  unfolding run
  run_accounts batch_size decode events w =
      performed-Adds (run_loop batch_size decode waiting events).0 w
