-- ===== src/Kafka/UserHandlers/Shadowed.antt =====
-- Which message the registration consumer sends to the dead-letter topic for a refused user.
use distributed_workflow_sys.Prelude.{
  ◌≡◌, refl, ap, ◌∙◌, some, false, List, [], ◌∷◌, ◌++◌, any, All, arith, ◌==◌, eq_refl,
}
use distributed_workflow_sys.Prelude.Act.{each, after}
use distributed_workflow_sys.Domain.User.{UserSnapshot}
use distributed_workflow_sys.Kafka.UserHandlers.{
  UserEvent, UserRegisteredHandler, find_event, send_to_dlq, dlq_found, dlq_failed,
}

find_event-first :
    (before behind : List UserEvent) (ev : UserEvent)
    → any (λ e. e.user.id == ev.user.id) before ≡ false
    → find_event ev.user.id (before ++ ev ∷ behind) ≡ some ev
unfolding find_event
find_event-first [] behind ev h = rw (eq_refl ev.user.id) refl
find_event-first (e ∷ before) behind ev h = ground (arith, find_event-first before behind ev)

module _ {W : Type 0} (h : UserRegisteredHandler W) where
  -- However many users of one id the database refuses from a batch, each of them sends the message
  -- of the first event of that id to the dead-letter topic, and no message of a later one.
  pub dlq_failed-first :
      (before behind : List UserEvent) (ev : UserEvent) (failed : List UserSnapshot) (w : W)
      → any (λ e. e.user.id == ev.user.id) before ≡ false
      → All (λ u. u.id ≡ ev.user.id) failed
      → each (dlq_failed h (before ++ ev ∷ behind)) failed w
        ≡ each (λ u. send_to_dlq h ev.msg "Database constraint violation during upsert") failed w
  unfolding dlq_failed dlq_found send_to_dlq
  dlq_failed-first before behind ev [] w new same = refl
  dlq_failed-first before behind ev (u ∷ failed) w new same =
      let found =
        ap (λ id. find_event id (before ++ ev ∷ behind)) same.0
        ∙ find_event-first before behind ev new in
      ap (λ o. after (dlq_found h o w) (λ x. each (dlq_failed h (before ++ ev ∷ behind)) failed))
        found
      ∙ dlq_failed-first before behind ev failed _ new same.1
