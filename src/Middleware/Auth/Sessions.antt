-- ===== src/Middleware/Auth/Sessions.antt =====
-- Who gets past Protect.
use distributed_workflow_sys.Prelude.{
  ◌≡◌, ◌≢◌, refl, String, Option, none, some, Bool, true, false, ◌⊎◌, inl, inr, Bool-cases, ◌==◌,
  eq_iff, arith,
}
use distributed_workflow_sys.Prelude.Act.{Act, Result, ok, fail}
use distributed_workflow_sys.Prelude.Keeps.{if_cases}
use distributed_workflow_sys.Apperror.{unauthorized}
use distributed_workflow_sys.Kafka.UserHandlers.{session_key}
use distributed_workflow_sys.Middleware.Auth.{
  Claims, Token, VerifyResponse, AuthMiddleware, token_string, accept_session, ask_service,
  session_or_ask, check_session, check_claims, check_token, protect,
}

-- A user who is let through satisfies the predicate; every refusal has the status 401.
abbrev pub Lets : (String → Type 0) → Result String → Type 0
Lets P (ok user) = P user
Lets P (fail e) = (message : String) × (e ≡ unauthorized message)

pub Lets-mono :
    {P Q : String → Type 0}
    → ((user : String) → P user → Q user)
    → (r : Result String) → Lets P r
    → Lets Q r
Lets-mono f (ok user) h = f user h
Lets-mono f (fail e) h = h

module _ {W : Type 0} (m : AuthMiddleware W) where
  -- The session of the claims is cached, and the user is the one of the claims.
  abbrev pub Cached : Claims → W → String → Type 0
  Cached claims w user =
      (session_data : String) × ((m.get (session_key claims.user_id claims.device_id) w).0
        ≡ ok session_data)
      × (session_data ≢ "")
      × (user ≡ claims.user_id)

  -- The auth service was asked and called the session valid, and the user is the one it named.
  abbrev pub Vouched : String → Claims → W → String → Type 0
  Vouched token claims w user =
      (resp : VerifyResponse) × ((m.verify_session token
          (m.get (session_key claims.user_id claims.device_id) w).1).0
        ≡ ok resp)
      × (resp.is_valid ≡ true)
      × (user ≡ resp.user_id)

  abbrev pub Genuine : String → W → String → Type 0
  Genuine token w user =
      (t : Token) × (claims : Claims) × (m.parse m.secret token ≡ ok (some t))
      × (t.claims ≡ some claims)
      × (t.valid ≡ true)
      × (Cached claims w user ⊎ Vouched token claims w user)

  accept_session-Lets :
      (redis_key : String) (r : Result VerifyResponse) (w : W)
      → Lets
          (λ user.
            (resp : VerifyResponse) × (r ≡ ok resp)
            × (resp.is_valid ≡ true)
            × (user ≡ resp.user_id))
          (accept_session m redis_key r w).0
  unfolding accept_session
  accept_session-Lets redis_key (fail e) w = (_, refl)
  accept_session-Lets redis_key (ok resp) w =
      if_cases
        (λ (c : Act W String).
          Lets
            (λ user.
              (resp' : VerifyResponse) × (◌≡◌ {A = Result VerifyResponse} (ok resp) (ok resp'))
              × (resp'.is_valid ≡ true)
              × (user ≡ resp'.user_id))
            (c w).0)
        resp.is_valid _ _ (λ valid. (resp, refl, valid, refl)) (λ refused. (_, refl))

  session_or_ask-Lets :
      (token : String) (claims : Claims) (redis_key : String) (r : Result String) (w : W)
      → Lets
          (λ user.
            ((session_data : String) × (r ≡ ok session_data)
              × (session_data ≢ "")
              × (user ≡ claims.user_id))
            ⊎ ((resp : VerifyResponse) × ((m.verify_session token w).0 ≡ ok resp)
                × (resp.is_valid ≡ true)
                × (user ≡ resp.user_id)))
          (session_or_ask m token claims redis_key r w).0
  unfolding session_or_ask ask_service
  session_or_ask-Lets token claims redis_key (fail e) w =
      Lets-mono (λ user h. inr h) (accept_session m redis_key (m.verify_session token w).0 _).0
        (accept_session-Lets redis_key (m.verify_session token w).0 _)
  session_or_ask-Lets token claims redis_key (ok session_data) w =
      elim (Bool-cases (session_data == "")) [
        | inl nothing ↦ rw nothing (
            Lets-mono (λ user h. inr h)
              (accept_session m redis_key (m.verify_session token w).0 _).0
              (accept_session-Lets redis_key (m.verify_session token w).0 _))
        | inr held ↦
            rw held (inl (session_data, refl, (λ e. ground (arith, eq_iff session_data "")), refl))
      ]

  check_claims-Lets :
      (token : String) (claims : Option Claims) (valid : Bool) (w : W)
      → Lets
          (λ user.
            (c : Claims) × (claims ≡ some c)
            × (valid ≡ true)
            × (Cached c w user ⊎ Vouched token c w user))
          (check_claims m token claims valid w).0
  unfolding check_claims check_session
  check_claims-Lets token none valid w = (_, refl)
  check_claims-Lets token (some claims) false w = (_, refl)
  check_claims-Lets token (some claims) true w =
      let key = session_key claims.user_id claims.device_id in
      Lets-mono (λ user h. (claims, refl, refl, h))
        (session_or_ask m token claims key (m.get key w).0 (m.get key w).1).0
        (session_or_ask-Lets token claims key (m.get key w).0 (m.get key w).1)

  check_token-Lets :
      (token : String) (r : Result (Option Token)) (w : W)
      → m.parse m.secret token ≡ r
      → Lets (Genuine token w) (check_token m token r w).0
  unfolding check_token
  check_token-Lets token (fail e) w h = (_, refl)
  check_token-Lets token (ok none) w h = (_, refl)
  check_token-Lets token (ok (some t)) w h =
      Lets-mono (λ user (claims, has, valid, session). (t, claims, h, has, valid, session))
        (check_claims m token t.claims t.valid w).0 (check_claims-Lets token t.claims t.valid w)

  -- Protect lets a request through only with a token that the secret verifies, with claims and not
  -- expired: as the user of the claims if their session is cached, or as the user whom the auth
  -- service names when it calls the session valid. Every other request is refused with the status
  -- 401.
  pub protect-Lets :
      (auth_header : String) (w : W)
      → Lets (Genuine (token_string auth_header) w) (protect m auth_header w).0
  unfolding protect
  protect-Lets auth_header w =
      if_cases (λ (c : Act W String). Lets (Genuine (token_string auth_header) w) (c w).0)
        (auth_header == "") _ _ (λ missing. (_, refl))
        (λ given.
          check_token-Lets (token_string auth_header) (m.parse m.secret (token_string auth_header))
            w refl)
