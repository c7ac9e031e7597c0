-- ===== src/Tests/Requests.antt =====
-- The theorems on requests, tokens and consumers at a token and sessions that run.
use distributed_workflow_sys.Prelude.{
  ℕ, ◌+◌, ◌≤◌, ◌≡◌, ◌≢◌, refl, String, Option, none, some, true, List, [], ◌∷◌, ◌==◌, if◌then◌else◌,
  arith, subst,
}
use distributed_workflow_sys.Prelude.Act.{Act, AppError, no_rows, other, ok, fail, each}
use distributed_workflow_sys.Domain.Task.{Task}
use distributed_workflow_sys.Domain.User.{UserLogoutPayload}
use distributed_workflow_sys.Http.{atoi, page_limit, Codec, cursor_of, encode_cursor, Request}
use distributed_workflow_sys.Http.Query.{
  Honoured, Faithful, page_limit_bounds, cursor_of-encode_cursor,
}
use distributed_workflow_sys.Kafka.Loop.{Message}
use distributed_workflow_sys.Kafka.UserHandlers.{Sessions, handle_logout}
use distributed_workflow_sys.Kafka.Worker.{handles, new_worker, add_topic_handler, start_reader}
use distributed_workflow_sys.Kafka.Worker.Fetching.{handle_and_commit, start_reader-each}
use distributed_workflow_sys.Middleware.Auth.{
  Claims, Token, AuthMiddleware, token_string, protect, with_user,
}
use distributed_workflow_sys.Middleware.Auth.Logout.{Holds, answer, handle_logout-protect}
use distributed_workflow_sys.Middleware.Auth.Sessions.{Genuine, Vouched, Lets, protect-Lets}
use distributed_workflow_sys.Middleware.Auth.Still.{Still}
use distributed_workflow_sys.Middleware.GlobalError.{ErrorReply, global_error_handler}
use distributed_workflow_sys.Middleware.GlobalError.Production.{
  Answers, global_error_handler-Answers,
}
use distributed_workflow_sys.Sql.{Statement}
use distributed_workflow_sys.Task.Controller.{
  Texts, post_task, update_task, update_status, post_comment,
}
use distributed_workflow_sys.Task.Controller.Guarded.{RefusedOr, task_requests-guarded}
use distributed_workflow_sys.Task.Guarded.{Permitted, MayReplace, MayMove}
use distributed_workflow_sys.Task.Repository.{bulk_create, bulk_update, bulk_update_status}
use distributed_workflow_sys.Task.Repository.Rows.{SoundAtCost, bulk_operations-Sound}
use distributed_workflow_sys.Tests.Board.{Silent, quiet, create_input, update_input}
use distributed_workflow_sys.Tests.Database.{a_task, violation}
use distributed_workflow_sys.Tests.TaskService.{World, service, done}

abbrev anna : Claims
anna = record { user_id = "anna"; device_id = "phone" }

abbrev token : Token
token = record { claims = some anna; valid = true }

-- One token is genuine, and the auth service takes every session for valid.
abbrev auth : {W : Type 0} → (String → Act W String) → AuthMiddleware W
auth get = record {
  secret = "secret";
  parse = λ secret text. if text == "good" then ok (some token) else fail (other "malformed");
  get = get;
  set = λ key value. done tt;
  verify_session = λ text. done (record { is_valid = true; user_id = "anna" });
}

abbrev no_session : {W : Type 0} → String → Act W String
no_session key w = (fail (other "redis: nil"), w)

protect-Lets_example :
    Lets
      (Genuine {W = World} (auth no_session) (token_string "Bearer good") [])
      (protect {W = World} (auth no_session) "Bearer good" []).0
protect-Lets_example = protect-Lets (auth no_session) "Bearer good" []

-- The world is the one session that is kept, under whatever key.
abbrev sessions : Sessions (Option String)
sessions = record { get = λ key w. (answer w, w); del = λ key w. (ok tt, none) }

sessions-Holds : Holds sessions (λ w key. w)
sessions-Holds = record { get = λ w key. refl; del = λ w key. refl }

abbrev logout : Message
logout = record { partition = 0; offset = 0; key = "anna"; value = "phone"; headers = [] }

abbrev decode : Message → Option UserLogoutPayload
decode msg = some (record { user_id = msg.key; device_id = msg.value })

abbrev after_logout : Option String
after_logout = (handle_logout sessions decode logout (some "active")).1

handle_logout-protect_example :
    Lets
      (Vouched (auth sessions.get) (token_string "Bearer good") anna after_logout)
      (protect (auth sessions.get) "Bearer good" after_logout).0
unfolding token_string
handle_logout-protect_example =
    handle_logout-protect sessions (λ w key. w) sessions-Holds decode (auth sessions.get) refl
      logout (record { user_id = "anna"; device_id = "phone" }) "Bearer good" token anna
      (some "active") refl refl refl refl refl

page_limit_bounds_example :
    (1 ≤ page_limit "50") × (page_limit "50" ≤ 20) × Honoured (atoi "50") (page_limit "50")
page_limit_bounds_example = page_limit_bounds "50"

-- Texts stand for themselves.
abbrev codec : Codec
codec = record {
  url_encode = λ s. s;
  url_decode = λ s. some s;
  std_decode = λ s. some s;
  is_uuid = λ s. true;
}

codec-Faithful : Faithful codec
codec-Faithful = record { reads = λ s. refl; visible = λ s h. h }

cursor_of-encode_cursor_example : cursor_of codec (encode_cursor codec "p1") ≡ ok "p1"
cursor_of-encode_cursor_example = cursor_of-encode_cursor codec "p1" codec-Faithful (λ h. refl)

still : Still (auth no_session) Silent
still = record { get = λ key w h. h; set = λ key value w h. h; verify_session = λ text w h. h }

abbrev texts : Texts
texts = record { to_upper = λ s. s; trim_space = λ s. s }

abbrev request : Request
request = record {
  id = "ws";
  project_id = "p";
  task_id = "1";
  limit = "";
  cursor = "";
  statuses = [];
  user_id = "";
}

task_requests-guarded_example :
    RefusedOr
      (auth no_session)
      Silent
      still
      "Bearer good"
      (λ user. Permitted service Silent quiet "ws" user ("ADMIN" ∷ []))
      (with_user
        (auth no_session)
        "Bearer good"
        λ user. post_task service codec texts (record request { user_id = user }) (ok create_input))
      []
    × RefusedOr
        (auth no_session)
        Silent
        still
        "Bearer good"
        (λ user. MayReplace service Silent quiet "ws" user "1")
        (with_user (auth no_session) "Bearer good" λ user.
          update_task service codec texts (record request { user_id = user }) (ok update_input))
        []
    × RefusedOr
        (auth no_session)
        Silent
        still
        "Bearer good"
        (λ user. MayMove service Silent quiet "ws" user "1")
        (with_user
          (auth no_session)
          "Bearer good"
          λ user. update_status service codec texts (record request { user_id = user }) (ok "DONE"))
        []
    × RefusedOr
        (auth no_session)
        Silent
        still
        "Bearer good"
        (λ user. Permitted service Silent quiet "ws" user [])
        (with_user (auth no_session) "Bearer good" λ user.
          post_comment service codec texts
            (record request { user_id = user })
            (ok (record { content = "Hi" })))
        []
task_requests-guarded_example =
    task_requests-guarded (auth no_session) Silent still service quiet codec texts "Bearer good"
      request [] refl (ok create_input) (ok update_input) (ok "DONE")
      (ok (record { content = "Hi" }))

abbrev trace : AppError → String
trace e = "main.go:1"

production : ◌≢◌ {A = String} "production" "development"
production e = absurd (subst (λ env. if env == "production" then Unit {0} else ⊥) e tt)

global_error_handler-Answers_example :
    (r : ErrorReply) × (global_error_handler trace "main.go:2" "production" "GET" "/"
        (no_rows ∷ violation ∷ [])
      ≡ some r)
    × Answers violation r
global_error_handler-Answers_example =
    global_error_handler-Answers trace "main.go:2" "production" "GET" "/" production (no_rows ∷ [])
      violation

-- A database that refuses every statement; its world counts them.
abbrev refusing : Statement → Act ℕ (Unit {0})
refusing s n = (fail violation, n + 1)

abbrev two_tasks : List Task
two_tasks = a_task "1" "LOW" ∷ a_task "2" "LOW" ∷ []

bulk_operations-Sound_example :
    SoundAtCost refusing (λ n. n) two_tasks 0 (bulk_create refusing two_tasks 0)
    × SoundAtCost refusing (λ n. n) two_tasks 0 (bulk_update refusing two_tasks 0)
    × SoundAtCost refusing (λ n. n) [] 0 (bulk_update_status refusing [] 0)
bulk_operations-Sound_example =
    bulk_operations-Sound refusing (λ n. n) two_tasks [] 0 (λ s n. omega arith)

abbrev note : Message → Act (List String) (Unit {0})
note msg w = (fail violation, msg.key ∷ w)

start_reader-each_example :
    start_reader
      (add_topic_handler new_worker "user-logout" (handles note))
      (λ msg. done tt)
      "user-logout"
      (ok logout ∷ fail violation ∷ ok logout ∷ [])
      []
    ≡ each (handle_and_commit note (λ msg. done tt)) (logout ∷ []) []
start_reader-each_example =
    start_reader-each note (λ msg. done tt) new_worker "user-logout" (logout ∷ []) violation
      (ok logout ∷ []) []
