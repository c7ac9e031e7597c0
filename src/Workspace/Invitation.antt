-- ===== src/Workspace/Invitation.antt =====
-- The life of an invitation: who may accept it, and that it is settled once.
use distributed_workflow_sys.Prelude.{
  ℕ, ◌≡◌, ◌≢◌, refl, sym, ap, ◌∙◌, String, true, false, ◌⊎◌, inl, inr, Bool-cases, List, [], ◌∷◌,
  ◌==◌, ne-beq, ltb,
}
use distributed_workflow_sys.Prelude.Act.{
  Act, pure, Error, Result, ok, fail, relabel, relabelled, value_or, after,
}
use distributed_workflow_sys.Prelude.Keeps.{
  Keeps, Returns, Refused, Refused-bind, relabelled-Keeps, relabelled-ok,
}
use distributed_workflow_sys.Domain.Workspace.{WorkspaceInvitation}
use distributed_workflow_sys.Domain.User.{UserSnapshot}
use distributed_workflow_sys.Workspace.Service.{Service}
use distributed_workflow_sys.Workspace.Temporal.{
  EmailClient, WorkspaceActivities, check_invite_status, expire_found, expire_invite,
}
use distributed_workflow_sys.Workspace.Invite.{
  invalid_link, no_user, join_once, accept_as, accept_at, accept_invite, accept_invitation,
}

-- `P` is kept by the reads of AcceptInvitation, by the clock and by the two statuses that a refusal
-- may write.
pub record Reads {W : Type 0} (s : Service W) (P : W → Type 0) : Type 0 where
  pub find_invite : (a token : String) → Keeps P (s.ws_repo.find_invite_by_token a token)
  pub set_expired : (a b : String) → Keeps P (s.ws_repo.update_invite_status a b "EXPIRED")
  pub set_accepted : (a b : String) → Keeps P (s.ws_repo.update_invite_status a b "ACCEPTED")
  pub is_member : (a b : String) → Keeps P (s.ws_repo.is_member a b)
  pub find_user : (id : String) → Keeps P (s.user_repo.find_by_id id)
  pub now : (w : W) → P w → P (s.runtime.now w).1

module _ {W : Type 0} (s : Service W) (P : W → Type 0) (q : Reads s P)
    (token user_id : String) where
  -- The user of the session is the one who was invited and is not a member yet.
  abbrev Invited : WorkspaceInvitation → W → Type 0
  Invited invite w =
      (u : UserSnapshot) × (w1 : W) × ((s.user_repo.find_by_id user_id w).0 ≡ ok u)
      × ((invite.email == u.email) ≡ true)
      × (value_or false (s.ws_repo.is_member invite.workspace_id user_id w1).0 ≡ false)

  -- A pending invitation of this user, within its lifetime.
  abbrev pub Eligible : W → Type 0
  Eligible w =
      (invite : WorkspaceInvitation) × (w1 : W) × ((s.ws_repo.find_invite_by_token "" token w).0
        ≡ ok invite)
      × ((invite.status == "PENDING") ≡ true)
      × (ltb invite.expires_at (s.runtime.now w1).0 ≡ false)
      × Invited invite (s.runtime.now w1).1

  accept_as-guarded :
      (invite : WorkspaceInvitation) (u : UserSnapshot) (w w1 : W)
      → P w1
      → (s.user_repo.find_by_id user_id w).0 ≡ ok u
      → Refused P (accept_as s invite user_id u w1) ⊎ Invited invite w
  unfolding accept_as join_once
  accept_as-guarded invite u w w1 h found = elim (Bool-cases (invite.email == u.email)) [
    | inr other ↦ inl (rw other (tt, h))
    | inl same ↦
        let (r, w2) = s.ws_repo.is_member invite.workspace_id user_id w1 in
        elim (Bool-cases (value_or false r)) [
          | inl member ↦ inl (rw (same, member) (tt, q.set_accepted _ _ _ (q.is_member _ _ _ h)))
          | inr stranger ↦ inr (u, w1, found, same, stranger)
        ]
  ]

  accept_at-guarded :
      (invite : WorkspaceInvitation) (now : ℕ) (w : W)
      → P w
      → Refused P (accept_at s invite user_id now w)
        ⊎ ((ltb invite.expires_at now ≡ false) × Invited invite w)
  unfolding accept_at
  accept_at-guarded invite now w h = elim (Bool-cases (ltb invite.expires_at now)) [
    | inl late ↦ inl (rw late (tt, q.set_expired _ _ _ h))
    | inr timely ↦ rw timely (
        Refused-bind {P = P} ((false ≡ false) × Invited invite w)
          (relabel (λ err. no_user) (s.user_repo.find_by_id user_id)) (accept_as s invite user_id) w
          (λ v k.
            relabelled-Keeps P (λ err. no_user) (s.user_repo.find_by_id user_id v)
              (q.find_user user_id v k))
          h
          (λ u w1 r k.
            elim (accept_as-guarded invite u w w1 k
              (relabelled-ok (λ err. no_user) (s.user_repo.find_by_id user_id w) u w1 r)) [
                | inl refused ↦ inl refused
                | inr invited ↦ inr (refl, invited)
              ]))
  ]

  accept_invite-guarded :
      (invite : WorkspaceInvitation) (w : W)
      → P w
      → Refused P (accept_invite s invite user_id w)
        ⊎ (((invite.status == "PENDING") ≡ true)
            × (ltb invite.expires_at (s.runtime.now w).0 ≡ false)
            × Invited invite (s.runtime.now w).1)
  unfolding accept_invite
  accept_invite-guarded invite w h = elim (Bool-cases (invite.status == "PENDING")) [
    | inr settled ↦ inl (rw settled (tt, h))
    | inl pending ↦
        let (now, w1) = s.runtime.now w in
        elim (accept_at-guarded invite now w1 (q.now w h)) [
          | inl refused ↦ inl (rw pending refused)
          | inr (timely, invited) ↦ inr (pending, timely, invited)
        ]
  ]

  -- For every predicate of the world that is kept by the reads, the clock and the update of an
  -- invitation to EXPIRED or to ACCEPTED, AcceptInvitation either returns an error and keeps the
  -- predicate, or the token has a pending invitation that has not expired and was sent to the
  -- caller's email address, and the look for the caller among the members of its workspace failed
  -- or found none.
  pub accept_invitation-guarded :
      (w : W) → P w → Refused P (accept_invitation s token user_id w) ⊎ Eligible w
  unfolding accept_invitation
  accept_invitation-guarded w h =
      Refused-bind (Eligible w)
        (relabel (λ err. invalid_link) (s.ws_repo.find_invite_by_token "" token)) _ w
        (λ v k.
          relabelled-Keeps P (λ err. invalid_link) (s.ws_repo.find_invite_by_token "" token v)
            (q.find_invite "" token v k))
        h
        (λ invite w1 r k. elim (accept_invite-guarded invite w1 k) [
          | inl refused ↦ inl refused
          | inr (pending, timely, invited) ↦ inr (
            invite,
            w1,
            relabelled-ok (λ err. invalid_link) (s.ws_repo.find_invite_by_token "" token w) invite
                w1 r,
            pending,
            timely,
            invited,
          )
        ])

-- `status_of` is the stored status of the token's invitation: the lookup shows it and keeps it.
pub record Stored {W : Type 0} (s : Service W) (token : String) (status_of : W → String)
    : Type 0 where
  pub keeps : (w : W) → status_of (s.ws_repo.find_invite_by_token "" token w).1 ≡ status_of w
  pub shows :
      (w : W)
      → Returns
          (λ (i : WorkspaceInvitation). i.status ≡ status_of w)
          (s.ws_repo.find_invite_by_token "" token w).0

-- What can be done to an invitation, by the users who hold its link and by the workflow.
pub data Request : Type 0 where
  accept : String → Request
  check : Request
  expire : Request

module _ {W : Type 0} (s : Service W) (a : WorkspaceActivities W) (token : String) where
  unfoldable pub handle : Request → W → W
  handle (accept user_id) w = (accept_invitation s token user_id w).1
  handle check w = (check_invite_status a token w).1
  handle expire w = (expire_invite a token w).1

  unfoldable pub handle_all : List Request → W → W
  handle_all [] w = w
  handle_all (r ∷ rs) w = handle_all rs (handle r w)

-- What follows the lookup of an invitation that is not pending does nothing, if it does nothing for
-- each such invitation.
settled-after :
    {W B : Type 0} (status : String) (f : WorkspaceInvitation → Act W B)
    (r : Result WorkspaceInvitation × W)
    → status ≢ "PENDING"
    → Returns (λ i. i.status ≡ status) r.0
    → ((i : WorkspaceInvitation) (v : W) → (i.status == "PENDING") ≡ false → (f i v).1 ≡ v)
    → (after r f).1 ≡ r.1
settled-after status f (ok i, v) h shown idle =
    idle i v (ne-beq i.status "PENDING" (λ e. h (sym shown ∙ e)))
settled-after status f (fail e, v) h shown idle = refl

-- The same under another error.
relabelled-after :
    {W A B : Type 0} (g : Error → Error) (f : A → Act W B) (r : Result A × W)
    → (after (relabelled g r) f).1 ≡ (after r f).1
relabelled-after g f (ok a, v) = refl
relabelled-after g f (fail e, v) = refl

module _ {W : Type 0} (s : Service W) (email_client : EmailClient W) (token : String)
    (status_of : W → String) (stored : Stored s token status_of) where
  abbrev activities : WorkspaceActivities W
  activities = record { repo = s.ws_repo; email_client = email_client }

  accept_invite-idle :
      (user_id : String) (i : WorkspaceInvitation) (v : W)
      → (i.status == "PENDING") ≡ false
      → (accept_invite s i user_id v).1 ≡ v
  unfolding accept_invite
  accept_invite-idle user_id i v settled = rw settled refl

  expire_found-idle :
      (i : WorkspaceInvitation) (v : W)
      → (i.status == "PENDING") ≡ false
      → (expire_found activities i v).1 ≡ v
  unfolding expire_found
  expire_found-idle i v settled = rw settled refl

  handle-keeps :
      (r : Request) (w : W)
      → status_of w ≢ "PENDING"
      → status_of (handle s activities token r w) ≡ status_of w
  unfolding handle accept_invitation check_invite_status expire_invite
  handle-keeps (accept user_id) w h =
      let r = s.ws_repo.find_invite_by_token "" token w in
      ap status_of (
        relabelled-after (λ err. invalid_link) (λ i. accept_invite s i user_id) r
        ∙ settled-after (status_of w) (λ i. accept_invite s i user_id) r h (stored.shows w)
            (accept_invite-idle user_id))
      ∙ stored.keeps w
  handle-keeps check w h =
      ap status_of (
        settled-after (status_of w) (λ i. pure i.status) (s.ws_repo.find_invite_by_token "" token w)
          h (stored.shows w) (λ i v e. refl))
      ∙ stored.keeps w
  handle-keeps expire w h =
      ap status_of (
        settled-after (status_of w) (expire_found activities)
          (s.ws_repo.find_invite_by_token "" token w) h (stored.shows w) expire_found-idle)
      ∙ stored.keeps w

  -- Where the lookup by token shows the stored status and keeps it, an invitation that is not
  -- pending keeps its status, whatever requests its holders and the workflow make, in any order.
  pub handle_all-settled :
      (rs : List Request) (w : W)
      → status_of w ≢ "PENDING"
      → status_of (handle_all s activities token rs w) ≡ status_of w
  unfolding handle_all
  handle_all-settled [] w h = refl
  handle_all-settled (r ∷ rs) w h =
      let kept = handle-keeps r w h in
      handle_all-settled rs (handle s activities token r w) (λ e. h (sym kept ∙ e)) ∙ kept
