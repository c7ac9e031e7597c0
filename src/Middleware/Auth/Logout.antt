-- ===== src/Middleware/Auth/Logout.antt =====
-- The logout consumer of internal/kafka/user_handlers.go and Protect share the session keys.
use distributed_workflow_sys.Prelude.{
  ◌≡◌, refl, sym, ap, ◌∙◌, subst, String, Option, none, some, ◌⊎◌, inl, inr, Bool-cases, ◌==◌,
  eq_iff,
}
use distributed_workflow_sys.Prelude.Act.{other, Result, ok, fail}
use distributed_workflow_sys.Prelude.Keeps.{IsFail}
use distributed_workflow_sys.Kafka.Loop.{Message}
use distributed_workflow_sys.Domain.User.{UserLogoutPayload}
use distributed_workflow_sys.Kafka.UserHandlers.{Sessions, session_key, drop_session, handle_logout}
use distributed_workflow_sys.Middleware.Auth.{Claims, Token, AuthMiddleware, token_string, protect}
use distributed_workflow_sys.Middleware.Auth.Sessions.{
  Cached, Vouched, Lets, Lets-mono, protect-Lets,
}

-- A token has one reading.
same_claims :
    (parse : String → String → Result (Option Token)) (secret token : String) (t t' : Token)
    (claims claims' : Claims)
    → parse secret token ≡ ok (some t)
    → parse secret token ≡ ok (some t')
    → t.claims ≡ some claims
    → t'.claims ≡ some claims'
    → claims' ≡ claims
same_claims parse secret token t t' claims claims' p p' h h' = cc

abbrev pub answer : Option String → Result String
answer none = fail (other "redis: nil")
answer (some v) = ok v

-- `held` is what Redis holds of sessions: a read shows it, and a deleted key is not there.
pub record Holds {W : Type 0} (rdb : Sessions W) (held : W → String → Option String) : Type 0 where
  pub get : (w : W) (key : String) → rdb.get key w ≡ (answer (held w key), w)
  pub del : (w : W) (key : String) → held (rdb.del key w).1 key ≡ none

module _ {W : Type 0} (rdb : Sessions W) (held : W → String → Option String)
    (holds : Holds rdb held) (decode : Message → Option UserLogoutPayload) where
  -- No session, or an empty one, which counts as none.
  abbrev Ended : Option String → Type 0
  Ended none = Unit {0}
  Ended (some v) = v ≡ ""

  drop_session-Ended :
      (key : String) (o : Option String) (w : W)
      → held w key ≡ o
      → Ended (held (drop_session rdb key (answer o) w).1 key)
  unfolding drop_session
  drop_session-Ended key none w h = rw h tt
  drop_session-Ended key (some v) w h = elim (Bool-cases (v == "")) [
    | inl empty ↦ rw (empty, h) ((eq_iff v "").0 empty)
    | inr there ↦ rw (there, holds.del w key) tt
  ]

  handle_logout-Ended :
      (msg : Message) (p : UserLogoutPayload) (w : W)
      → decode msg ≡ some p
      → Ended (held (handle_logout rdb decode msg w).1 (session_key p.user_id p.device_id))
  unfolding handle_logout
  handle_logout-Ended msg p w e =
      let key = session_key p.user_id p.device_id in
      rw (e, holds.get w key) (drop_session-Ended key (held w key) w refl)

  ended : (o : Option String) (v : String) → Ended o → answer o ≡ ok v → v ≡ ""
  ended none v h e = absurd (subst IsFail e tt)
  ended (some u) v h e = cc

  module _ (m : AuthMiddleware W) (same : m.get ≡ rdb.get) where
    get-empty : (key v : String) (w : W) → Ended (held w key) → (m.get key w).0 ≡ ok v → v ≡ ""
    get-empty key v w h e = ended (held w key) v h (
        sym (ap (λ (r : Result String × W). r.0) (holds.get w key))
        ∙ sym (ap (λ g. (g key w).0) same)
        ∙ e)

    -- Where a read of Redis shows the session that is held and a deleted one is held no longer,
    -- after the logout consumer has handled the logout of a user's device Protect lets a token of
    -- that user and device through only if the auth service calls the session valid when it is
    -- asked: no cached session vouches for it.
    pub handle_logout-protect :
        (msg : Message) (p : UserLogoutPayload) (auth_header : String) (t : Token) (claims : Claims)
        (w : W)
        → decode msg ≡ some p
        → m.parse m.secret (token_string auth_header) ≡ ok (some t)
        → t.claims ≡ some claims
        → claims.user_id ≡ p.user_id
        → claims.device_id ≡ p.device_id
        → let after_logout = (handle_logout rdb decode msg w).1 in
          Lets
            (Vouched m (token_string auth_header) claims after_logout)
            (protect m auth_header after_logout).0
    handle_logout-protect msg p auth_header t claims w e parsed has user device =
        let v = (handle_logout rdb decode msg w).1 in
        let token = token_string auth_header in
        let gone : Ended (held v (session_key claims.user_id claims.device_id)) =
          rw (user, device) (handle_logout-Ended msg p w e) in
        Lets-mono
          (λ name (t', claims', parsed', has', valid, how).
            elim (subst (λ c. Cached m c v name ⊎ Vouched m token c v name)
              (same_claims m.parse m.secret token t t' claims claims' parsed parsed' has has')
              how) [
                | inl (session_data, shown, there, _) ↦
                    absurd (there (get-empty _ session_data v gone shown))
                | inr vouched ↦ vouched
              ])
          (protect m auth_header v).0 (protect-Lets m auth_header v)
