-- ===== src/Middleware/Auth/Still.antt =====
-- Protect changes nothing but what it stores of a session.
use distributed_workflow_sys.Prelude.{String, Option, none, some, Bool, true, false, ◌==◌, not}
use distributed_workflow_sys.Prelude.Act.{Result, ok, fail}
use distributed_workflow_sys.Prelude.Keeps.{Keeps, Keeps-if}
use distributed_workflow_sys.Kafka.UserHandlers.{session_key}
use distributed_workflow_sys.Middleware.Auth.{
  Token, Claims, VerifyResponse, AuthMiddleware, token_string, accept_session, ask_service,
  session_or_ask, check_session, check_claims, check_token, protect,
}

-- `P` is kept by the calls of Protect.
pub record Still {W : Type 0} (m : AuthMiddleware W) (P : W → Type 0) : Type 0 where
  pub get : (key : String) → Keeps P (m.get key)
  pub set : (key value : String) → Keeps P (m.set key value)
  pub verify_session : (token : String) → Keeps P (m.verify_session token)

module _ {W : Type 0} (m : AuthMiddleware W) (P : W → Type 0) (still : Still m P) where
  accept_session-Keeps :
      (key : String) (r : Result VerifyResponse) → Keeps P (accept_session m key r)
  unfolding accept_session
  accept_session-Keeps key (fail e) w h = h
  accept_session-Keeps key (ok resp) w h =
      Keeps-if resp.is_valid _ _ (λ v k. still.set key "active" v k) (λ v k. k) w h

  ask_service-Keeps : (token key : String) → Keeps P (ask_service m token key)
  unfolding ask_service
  ask_service-Keeps token key w h =
      accept_session-Keeps key (m.verify_session token w).0 _ (still.verify_session token w h)

  session_or_ask-Keeps :
      (token : String) (claims : Claims) (key : String) (r : Result String)
      → Keeps P (session_or_ask m token claims key r)
  unfolding session_or_ask
  session_or_ask-Keeps token claims key (fail e) w h = ask_service-Keeps token key w h
  session_or_ask-Keeps token claims key (ok s) w h =
      Keeps-if (not (s == "")) _ _ (λ v k. k) (ask_service-Keeps token key) w h

  check_claims-Keeps :
      (token : String) (claims : Option Claims) (valid : Bool)
      → Keeps P (check_claims m token claims valid)
  unfolding check_claims check_session
  check_claims-Keeps token none valid w h = h
  check_claims-Keeps token (some c) false w h = h
  check_claims-Keeps token (some c) true w h =
      let key = session_key c.user_id c.device_id in
      session_or_ask-Keeps token c key (m.get key w).0 _ (still.get key w h)

  check_token-Keeps : (token : String) (r : Result (Option Token)) → Keeps P (check_token m token r)
  unfolding check_token
  check_token-Keeps token (fail e) w h = h
  check_token-Keeps token (ok none) w h = h
  check_token-Keeps token (ok (some t)) w h = check_claims-Keeps token t.claims t.valid w h

  pub protect-Keeps : (auth_header : String) → Keeps P (protect m auth_header)
  unfolding protect
  protect-Keeps auth_header =
      Keeps-if (auth_header == "") _ _ (λ w h. h)
        (check_token-Keeps (token_string auth_header) (m.parse m.secret (token_string auth_header)))
