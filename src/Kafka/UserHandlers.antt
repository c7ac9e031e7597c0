-- ===== src/Kafka/UserHandlers.antt =====
-- services/workspace-service/internal/kafka/user_handlers.go: the consumer of user registrations
-- and the one of logouts. `json.Unmarshal` is a parameter, and so is the Redis client.
pub mod Shadowed
use distributed_workflow_sys.Prelude.{
  joined, ℕ, Option, none, some, String, List, [], ◌∷◌, ◌++◌, map, ◌==◌, if◌then◌else◌, not,
}
use distributed_workflow_sys.Prelude.Act.{
  Act, Result, ok, fail, ◌>>=◌, ◌>>◌, pure, attempt, ignore, each,
}
use distributed_workflow_sys.Domain.User.{UserSnapshot, UserLogoutPayload, UserRepository}
use distributed_workflow_sys.Kafka.Loop.{Message, Event, Action, flush, reject, waiting, run_loop}
use distributed_workflow_sys.Kafka.Flush.{Reader}

pub record UserEvent : Type 0 where
  pub msg : Message
  pub user : UserSnapshot

-- The dead-letter writer takes a whole message, with its headers.
pub record UserRegisteredHandler (W : Type 0) : Type 0 where
  pub user_repo : UserRepository W
  pub write_dlq : Message → Act W (Unit {0})

-- `batchSize := 100`.
abbrev user_batch_size : ℕ
user_batch_size = 100

unfoldable dlq_message : Message → String → Message
dlq_message msg reason = record {
  partition = 0;
  offset = 0;
  key = msg.key;
  value = msg.value;
  headers = msg.headers ++ ("x-failure-reason", reason) ∷ [];
}

-- The first event of the batch whose user has the id.
unfoldable pub find_event : String → List UserEvent → Option UserEvent
find_event id [] = none
find_event id (ev ∷ batch) = if ev.user.id == id then some ev else find_event id batch

module _ {W : Type 0} (h : UserRegisteredHandler W) where
  unfoldable pub send_to_dlq : Message → String → Act W (Unit {0})
  unfolding dlq_message
  send_to_dlq msg reason = ignore (h.write_dlq (dlq_message msg reason))

  -- The two nested loops over the refused users and the events of the batch.
  unfoldable pub dlq_found : Option UserEvent → Act W (Unit {0})
  unfolding send_to_dlq
  dlq_found none = pure tt
  dlq_found (some ev) = send_to_dlq ev.msg "Database constraint violation during upsert"

  unfoldable pub dlq_failed : List UserEvent → UserSnapshot → Act W (Unit {0})
  unfolding find_event dlq_found
  dlq_failed batch failed = dlq_found (find_event failed.id batch)

module _ {W : Type 0} (h : UserRegisteredHandler W) (reader : Reader W) where
  unfoldable flush_users : List UserEvent → List Message → Act W (Unit {0})
  unfolding dlq_failed
  flush_users batch msgs = do
    r ← attempt (h.user_repo.bulk_upsert_users (map (λ ev. ev.user) batch))
    elim r [
      | fail err ↦ pure tt
      | ok failed ↦ do each (dlq_failed h batch) failed; ignore (reader.commit_messages msgs)
    ]

  -- `reason` is the text of the decoding error of a message.
  unfoldable perform_user : (Message → String) → Action UserEvent → Act W (Unit {0})
  unfolding flush_users send_to_dlq
  perform_user reason (flush batch msgs) = flush_users batch msgs
  perform_user reason (reject msg) = do
    send_to_dlq h msg (reason msg)
    ignore (reader.commit_messages (msg ∷ []))

  unfoldable run_loop_users :
      (Message → Option UserSnapshot) → (Message → String) → List Event → Act W (Unit {0})
  unfolding perform_user run_loop
  run_loop_users decode reason events =
      each (perform_user reason) (run_loop user_batch_size to_event waiting events).0
    where
      to_event : Message → Option UserEvent
      to_event msg = elim (decode msg) [
        | none ↦ none
        | some u ↦ some (record { msg = msg; user = u })
      ]

-- The part of a Redis client that sessions need.
pub record Sessions (W : Type 0) : Type 0 where
  pub get : String → Act W String
  pub del : String → Act W (Unit {0})

-- `fmt.Sprintf("session:%s:%s", userID, deviceId)`.
unfoldable pub session_key : String → String → String
session_key user_id device_id = joined ("session:" ∷ user_id ∷ ":" ∷ device_id ∷ [])

module _ {W : Type 0} (rdb : Sessions W) where
  unfoldable pub drop_session : String → Result String → Act W (Unit {0})
  drop_session key (ok session_data) =
      if not (session_data == "") then ignore (rdb.del key) else pure tt
  drop_session key (fail err) = pure tt

  unfoldable pub end_session : Option UserLogoutPayload → Act W (Unit {0})
  unfolding drop_session
  end_session none = pure tt
  end_session (some user_logout) = do
    session_data ← attempt (rdb.get (session_key user_logout.user_id user_logout.device_id))
    drop_session (session_key user_logout.user_id user_logout.device_id) session_data

  -- UserLogoutHandler.Handle.
  unfoldable pub handle_logout : (Message → Option UserLogoutPayload) → Message → Act W (Unit {0})
  unfolding end_session
  handle_logout decode msg = end_session (decode msg)
