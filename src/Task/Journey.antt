-- ===== src/Task/Journey.antt =====
-- The way of a task from CreateTask (internal/task/service.go) over Kafka and the consumer of
-- internal/kafka/task_handler.go to its row in the table.
use mathlib.Core.List.Memᴰ
use distributed_workflow_sys.Prelude.{
  ◌≡◌, refl, sym, ap, ◌∙◌, subst, Option, none, some, Bool, true, Bool-cases, inl, inr, String,
  List, [], ◌∷◌, ◌++◌, keep, map, put_all, if◌then◌else◌,
}
use mathlib.Core.List.{append-nil, Memᴰ}
use distributed_workflow_sys.Prelude.Act.{Act, ok, fail, ◌>>◌, ignore, pure, when, relabelled}
use distributed_workflow_sys.Prelude.Keeps.{after-inv, relabelled-inv}
use distributed_workflow_sys.Domain.Task.{Task, TaskCreateInput}
use distributed_workflow_sys.Domain.Event
use distributed_workflow_sys.Sql.{Statement, Value}
use distributed_workflow_sys.Bulk.Exact.{good}
use distributed_workflow_sys.Task.Repository.{create_row}
use distributed_workflow_sys.Task.Repository.Conflict.{same_key, insert_new, Only, put_all-Mem}
use distributed_workflow_sys.Task.Service.{
  Service, check_access, send_task_created, send_notification, publish,
}
use distributed_workflow_sys.Task.Service.Create.{
  id_failure, publish_failure, assignee_of, new_task, announce_task, concerns, assigned_payload,
  create_task,
}
use distributed_workflow_sys.Kafka.Loop.{Message, Event, waiting, run_loop}
use distributed_workflow_sys.Kafka.Loop.Balance.{received, pending, decodes}
use distributed_workflow_sys.Kafka.Flush.{Reader}
use distributed_workflow_sys.Kafka.Accounts.{Registers}
use distributed_workflow_sys.Kafka.TaskHandlers.{TaskHandler, task_batch_size, run_loop_created}
use distributed_workflow_sys.Kafka.TaskHandlers.Delivery.{Delivery, letter, task_created-delivers}

mem_keep :
    {A : Type 0} (p : A → Bool) (a : A) (xs : List A) → p a ≡ true → Memᴰ a xs → Memᴰ a (keep p xs)
mem_keep p a [] h m = absurd (Memᴰ.not-nil m)
mem_keep p a (x ∷ xs) h (Memᴰ.head e) = rw (ap p (sym e) ∙ h) (Memᴰ.head e)
mem_keep p a (x ∷ xs) h (Memᴰ.tail m) = elim (Bool-cases (p x)) [
  | inl kept ↦ rw kept (Memᴰ.tail (mem_keep p a xs h m))
  | inr dropped ↦ rw dropped (mem_keep p a xs h m)
]

-- The rows of tasks that are the given one, if they have its key.
Only-rows :
    (t : Task) (ts : List Task)
    → ((u : Task) → Memᴰ u ts → same_key (create_row t) (create_row u) ≡ true → u ≡ t)
    → Only (create_row t) (map create_row ts)
Only-rows t [] h = tt
Only-rows t (u ∷ ts) h =
    ((λ same. ap create_row (h u (Memᴰ.head refl) same)), Only-rows t ts (λ v m. h v (Memᴰ.tail m)))

mem-mono :
    {A : Type 0} (a x : A) (xs ys : List A)
    → (Memᴰ a xs → Memᴰ a ys)
    → Memᴰ a (x ∷ xs)
    → Memᴰ a (x ∷ ys)
mem-mono a x xs ys f (Memᴰ.head e) = Memᴰ.head e
mem-mono a x xs ys f (Memᴰ.tail m) = Memᴰ.tail (f m)

keep_mem : {A : Type 0} (p : A → Bool) (a : A) (xs : List A) → Memᴰ a (keep p xs) → Memᴰ a xs
keep_mem p a [] m = absurd (Memᴰ.not-nil m)
keep_mem p a (x ∷ xs) m = elim (Bool-cases (p x)) [
  | inl kept ↦ mem-mono a x (keep p xs) xs (keep_mem p a xs) (rw kept at m)
  | inr dropped ↦ Memᴰ.tail (keep_mem p a xs (rw dropped at m))
]

abbrev value_of : Task → Option Task → Task
value_of d none = d
value_of d (some t) = t

pub some_inj : (t u : Task) → ◌≡◌ {A = Option Task} (some t) (some u) → t ≡ u
some_inj t u e = ap (value_of t) e

module _ {V : Type 0} (s : Service V) (json : Task → String)
    (marshals : (t : Task) → s.runtime.marshal_task t ≡ ok (json t)) where
  -- The event of the task was written, in a call that accepted it.
  abbrev pub Published : Task → Type 0
  Published t =
      (v1 : V) × (v2 : V) × (s.task_created_writer.write_messages
          (record { key = t.id; value = json t }) v1
        ≡ (ok tt, v2))

  announce_task-Published :
      (t t' : Task) (user_id : String) (v v' : V)
      → announce_task s t user_id v ≡ (ok t', v')
      → (t ≡ t') × Published t'
  unfolding announce_task send_task_created publish
  announce_task-Published t t' user_id v v' h =
      let (sent, v1, e1, h1) =
        after-inv (relabelled publish_failure (send_task_created s t v)) _ t' v' h in
      let (added, v2, e2, h2) =
        after-inv (ignore (s.task_cache.add_task t) v1)
          (λ a.
            when (concerns t user_id) (send_notification s (assigned_payload t) t.assignee_id)
            >> pure t)
          t' v' h1 in
      let (told, v3, e3, h3) =
        after-inv
          (when (concerns t user_id) (send_notification s (assigned_payload t) t.assignee_id) v2)
          (λ a. pure t) t' v' h2 in
      let same : t ≡ t' = ap (λ o. value_of t (elim (o.0) [ ok x ↦ some x | fail e ↦ none ])) h3 in
      let written = relabelled-inv publish_failure (send_task_created s t v) sent v1 e1 in
      (same, subst Published same (v, v1, rw (marshals t) at written))

  create_task-Published :
      (workspace_id project_id : String) (input : TaskCreateInput) (user_id : String) (t : Task)
      (v v' : V)
      → create_task s workspace_id project_id input user_id v ≡ (ok t, v')
      → Published t
  unfolding create_task
  create_task-Published workspace_id project_id input user_id t v v' h =
      let (a, v1, e1, h1) =
        after-inv (check_access s workspace_id user_id ("ADMIN" ∷ []) v) _ t v' h in
      let (id, v2, e2, h2) = after-inv (relabelled id_failure (s.runtime.new_v7 v1)) _ t v' h1 in
      let (name, v3, e3, h3) =
        after-inv (assignee_of s workspace_id input.assignee_id v2) _ t v' h2 in
      (announce_task-Published (new_task id workspace_id project_id input name (s.runtime.now v3).0)
        t user_id (s.runtime.now v3).1 v' h3).1

module _ {W : Type 0} (h : TaskHandler W) (reader : Reader W) (exec : Statement → Act W (Unit {0}))
    (r : Registers W (List Value) Event.Message) (bad : Task → Bool) (store : Task → W → W)
    (json : Task → String) (d : Delivery h reader exec r bad store json) where
  -- The row of the task is in the table, or its dead letter is written if the database refuses it.
  abbrev pub StoredOrBuried : Task → W → Type 0
  StoredOrBuried t w =
      if bad t then Memᴰ (letter json t) (r.dead w) else Memᴰ (create_row t) (r.stored w)

  batched-StoredOrBuried :
      (t : Task) (ts : List Task) (w w' : W)
      → r.stored w' ≡ put_all insert_new (map create_row (keep (good bad) ts)) (r.stored w)
      → r.dead w' ≡ r.dead w ++ map (letter json) (keep bad ts)
      → Only (create_row t) (r.stored w)
      → ((u : Task) → Memᴰ u ts → same_key (create_row t) (create_row u) ≡ true → u ≡ t)
      → Memᴰ t ts
      → StoredOrBuried t w'
  batched-StoredOrBuried t ts w w' stored dead only own m = elim (Bool-cases (bad t)) [
    | inl refused ↦ rw refused (
        subst (Memᴰ (letter json t)) (sym dead)
          (Memᴰ.append_right (r.dead w) (Memᴰ.map (letter json) (mem_keep bad t ts refused m))))
    | inr fine ↦ rw fine (
        subst (Memᴰ (create_row t)) (sym stored) (
          put_all-Mem (create_row t) (map create_row (keep (good bad) ts)) (r.stored w)
            (Only-rows t (keep (good bad) ts) (λ u k. own u (keep_mem (good bad) u ts k))) only
            (Memᴰ.map create_row (mem_keep (good bad) t ts (rw fine refl) m))))
  ]

  -- A message that was received and is no longer gathered has its task in a batch.
  received-batched :
      (decode : Message → Option Task) (events : List Event) (m : Message) (t : Task)
      (fetched_messages : List Message) (batch : List Task) (rest : List Message)
      → decode m ≡ some t
      → Memᴰ m (received events)
      → rest ≡ []
      → fetched_messages ++ rest ≡ keep (decodes decode) (received events)
      → map some batch ≡ map decode fetched_messages
      → Memᴰ t batch
  received-batched decode events m t fetched_messages batch rest e here none_left kept same =
      let in_fetched : Memᴰ m fetched_messages =
        subst (Memᴰ m)
          (sym kept ∙ ap (λ l. fetched_messages ++ l) none_left ∙ append-nil fetched_messages)
          (mem_keep (decodes decode) m (received events) (rw (decodes, e) refl) here) in
      let in_decoded : Memᴰ (some t) (map some batch) =
        subst (λ l. Memᴰ (some t) l) (sym same)
          (subst (λ o. Memᴰ o (map decode fetched_messages)) e (Memᴰ.map decode in_fetched)) in
      let (u, in_batch, k) = Memᴰ.of_map some batch in_decoded in
      subst (λ x. Memᴰ x batch) (some_inj u t k) in_batch

  -- A task of a batch has been received.
  batched-received :
      (decode : Message → Option Task) (events : List Event) (u : Task)
      (fetched_messages : List Message) (batch : List Task) (rest : List Message)
      → fetched_messages ++ rest ≡ keep (decodes decode) (received events)
      → map some batch ≡ map decode fetched_messages
      → Memᴰ u batch
      → (m : Message) × Memᴰ m (received events) × (decode m ≡ some u)
  batched-received decode events u fetched_messages batch rest kept same here =
      let (m, fetched, e) =
        Memᴰ.of_map decode fetched_messages
          (subst (λ l. Memᴰ (some u) l) same (Memᴰ.map some here)) in
      (
        m,
        keep_mem (decodes decode) m (received events)
            (subst (λ l. Memᴰ m l) kept (Memᴰ.append_left rest fetched)),
        e,
      )

module _ {V W : Type 0} (s : Service V) (h : TaskHandler W) (reader : Reader W)
    (exec : Statement → Act W (Unit {0})) (r : Registers W (List Value) Event.Message)
    (bad : Task → Bool) (store : Task → W → W) (json : Task → String)
    (d : Delivery h reader exec r bad store json)
    (marshals : (t : Task) → s.runtime.marshal_task t ≡ ok (json t)) where
  -- A task that CreateTask returned was published, in a call that accepted its event. Once the
  -- consumer of this event has received a message that decodes to the task, once or several times,
  -- among any others and failures of fetches, and gathers no message any more, the row of the task
  -- is in the table, or, if the database refuses the task, its dead letter is written, provided
  -- that no other row with the id and workspace of the task was in the table and no other task with
  -- them is received.
  pub create_task-StoredOrBuried :
      (workspace_id project_id : String) (input : TaskCreateInput) (user_id : String) (t : Task)
      (v v' : V) (decode : Message → Option Task) (events : List Event) (m : Message) (w : W)
      → create_task s workspace_id project_id input user_id v ≡ (ok t, v')
      → decode m ≡ some t
      → Memᴰ m (received events)
      → pending (run_loop task_batch_size decode waiting events).1 ≡ []
      → Only (create_row t) (r.stored w)
      → ((other : Message) (u : Task)
          → Memᴰ other (received events)
          → decode other ≡ some u
          → same_key (create_row t) (create_row u) ≡ true
          → u ≡ t)
      → Published s json marshals t
        × (w' : W) × (run_loop_created h reader decode events w ≡ (ok tt, w'))
        × StoredOrBuried h reader exec r bad store json d t w'
  create_task-StoredOrBuried workspace_id project_id input user_id t v v' decode events m w created
        e here none_left only own =
      let (w', ran, adds, same, kept) =
        task_created-delivers h reader exec r bad store json d decode events w in
      let in_batch =
        received-batched h reader exec r bad store json d decode events m t _ _ _ e here none_left
          kept same in
      (
        create_task-Published s json marshals workspace_id project_id input user_id t v v' created,
        w',
        ran,
        batched-StoredOrBuried h reader exec r bad store json d t _ w w' adds.stored_adds
            adds.dead_adds only
            (λ u k.
              let (other, got_it, e') =
                batched-received h reader exec r bad store json d decode events u _ _ _ kept same
                  k in
              own other u got_it e')
            in_batch,
      )
