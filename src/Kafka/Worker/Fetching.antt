-- ===== src/Kafka/Worker/Fetching.antt =====
-- What a consumer of single messages handles.
use distributed_workflow_sys.Prelude.{
  ◌≡◌, refl, String, some, inl, inr, Bool-cases, eq_refl, List, [], ◌∷◌, ◌++◌, ◌==◌, map,
}
use distributed_workflow_sys.Prelude.Act.{Act, Error, Result, ok, fail, ◌>>◌, ignore, each}
use distributed_workflow_sys.Kafka.Loop.{Message}
use distributed_workflow_sys.Task.Service.Listing.{put, get}
use distributed_workflow_sys.Kafka.Worker.{
  Handler, handles, Worker, add_topic_handler, consume, run_reader, start_reader,
}

module _ {W : Type 0} where
  get-put_self :
      (k : String) (h : Handler W) (m : List (String × Handler W)) → get k (put k h m) ≡ some h
  get-put_self k h [] = rw (eq_refl k) refl
  get-put_self k h ((k', h') ∷ m) = elim (Bool-cases (k' == k)) [
    | inl same ↦ rw (same, eq_refl k) refl
    | inr apart ↦ rw (apart, apart) (get-put_self k h m)
  ]

  module _ (handle commit : Message → Act W (Unit {0})) where
    abbrev pub handle_and_commit : Message → Act W (Unit {0})
    handle_and_commit msg = ignore (handle msg) >> ignore (commit msg)

    consume-each :
        (msgs : List Message) (err : Error) (later : List (Result Message)) (w : W)
        → consume handle commit (map ok msgs ++ fail err ∷ later) w ≡ each handle_and_commit msgs w
    unfolding consume
    consume-each [] err later w = refl
    consume-each (msg ∷ msgs) err later w = consume-each msgs err later _

    -- A reader whose topic has a handler of single messages handles and commits each message once
    -- and in order, whatever comes of either, up to the first fetch that fails, with whatever
    -- error. No later message is looked at: the consumer has returned.
    pub start_reader-each :
        (worker : Worker W) (topic : String) (msgs : List Message) (err : Error)
        (later : List (Result Message)) (w : W)
        → start_reader
            (add_topic_handler worker topic (handles handle))
            commit
            topic
            (map ok msgs ++ fail err ∷ later)
            w
          ≡ each handle_and_commit msgs w
    unfolding start_reader add_topic_handler run_reader
    start_reader-each worker topic msgs err later w =
        rw (get-put_self topic (handles handle) worker.handlers) (consume-each msgs err later w)
