-- ===== src/Middleware/Auth.antt =====
-- services/workspace-service/internal/middleware/auth.go. The token parser and the auth service's
-- client are parameters. To go on with a `user_id` is to return it; to abort with an error is to
-- return the error.
pub mod Sessions
pub mod Logout
pub mod Still
use Prim.Native.Char.{code}
use Prim.Native.String.{[] as nil, ◌∷◌ as cons}
use distributed_workflow_sys.Prelude.{
  String, Option, none, some, Bool, true, false, not, eqb, ◌==◌, if◌then◌else◌,
}
use distributed_workflow_sys.Prelude.Act.{
  Act, Result, ok, fail, ◌>>=◌, ◌>>◌, pure, raise, attempt, ignore,
}
use distributed_workflow_sys.Apperror.{unauthorized}
use distributed_workflow_sys.Kafka.UserHandlers.{session_key}

-- The two claims as `%v` prints them.
pub record Claims : Type 0 where
  pub user_id : String
  pub device_id : String

-- `claims` is none where the token's claims are not a map.
pub record Token : Type 0 where
  pub claims : Option Claims
  pub valid : Bool

pub record VerifyResponse : Type 0 where
  pub is_valid : Bool
  pub user_id : String

-- `parse` is jwt.Parse with the secret, `get` and `set` are those of the Redis client, `set` with
-- the expiry of fifteen minutes, and `verify_session` is the call of the auth service.
pub record AuthMiddleware (W : Type 0) : Type 0 where
  pub secret : String
  pub parse : String → String → Result (Option Token)
  pub get : String → Act W String
  pub set : String → String → Act W (Unit {0})
  pub verify_session : String → Act W VerifyResponse

-- The text behind a prefix.
unfoldable strip : String → String → Option String
strip String.[] s = some s
strip (String.◌∷◌ c p) String.[] = none
strip (String.◌∷◌ c p) (String.◌∷◌ d s) = if eqb (code c) (code d) then strip p s else none

-- `strings.TrimPrefix(s, prefix)`.
unfoldable trim_prefix : String → String → String
unfolding strip
trim_prefix s prefix = elim (strip prefix s) [ none ↦ s | some rest ↦ rest ]

unfoldable pub token_string : String → String
unfolding trim_prefix
token_string auth_header = trim_prefix auth_header "Bearer "

module _ {W : Type 0} (m : AuthMiddleware W) where
  -- The answer of the auth service; a valid session is cached.
  unfoldable pub accept_session : String → Result VerifyResponse → Act W String
  accept_session redis_key (ok resp) =
      if resp.is_valid
      then (ignore (m.set redis_key "active") >> pure resp.user_id)
      else raise (unauthorized "Session expired or invalid")
  accept_session redis_key (fail e) = raise (unauthorized "Session expired or invalid")

  unfoldable pub ask_service : String → String → Act W String
  unfolding accept_session
  ask_service token redis_key = do
    resp ← attempt (m.verify_session token)
    accept_session redis_key resp

  -- What is cached of the session; a failing look counts as nothing.
  unfoldable pub session_or_ask : String → Claims → String → Result String → Act W String
  unfolding ask_service
  session_or_ask token claims redis_key (ok session_data) =
      if not (session_data == "") then pure claims.user_id else ask_service token redis_key
  session_or_ask token claims redis_key (fail e) = ask_service token redis_key

  unfoldable pub check_session : String → Claims → Act W String
  unfolding session_or_ask session_key
  check_session token claims = do
    session_data ← attempt (m.get (session_key claims.user_id claims.device_id))
    session_or_ask token claims (session_key claims.user_id claims.device_id) session_data

  unfoldable pub check_claims : String → Option Claims → Bool → Act W String
  unfolding check_session
  check_claims token none valid = raise (unauthorized "Invalid token claims")
  check_claims token (some claims) false = raise (unauthorized "Invalid token claims")
  check_claims token (some claims) true = check_session token claims

  unfoldable pub check_token : String → Result (Option Token) → Act W String
  unfolding check_claims
  check_token token (ok (some t)) = check_claims token t.claims t.valid
  check_token token (ok none) = raise (unauthorized "Invalid or expired token")
  check_token token (fail e) = raise (unauthorized "Invalid or expired token")

  unfoldable pub protect : String → Act W String
  unfolding check_token token_string
  protect auth_header =
      if auth_header == ""
      then raise (unauthorized "Authorization header is required")
      else check_token (token_string auth_header) (m.parse m.secret (token_string auth_header))

  -- A route of a group with Protect: the handler runs as the user who was let through.
  unfoldable pub with_user : {A : Type 0} → String → (String → Act W A) → Act W A
  with_user auth_header handler = protect auth_header >>= handler
