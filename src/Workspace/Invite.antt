-- ===== src/Workspace/Invite.antt =====
-- InviteUser and AcceptInvitation of services/workspace-service/internal/workspace/service.go.
pub mod Open
use distributed_workflow_sys.Prelude.{
  ℕ, ◌+◌, ◌*◌, String, Option, none, some, Bool, true, false, [], ◌∷◌, ◌==◌, ltb, not,
  if◌then◌else◌, joined,
}
use distributed_workflow_sys.Prelude.Act.{
  Act, Error, Result, ok, fail, ◌>>=◌, ◌>>◌, pure, raise, attempt, ignore, relabel, when,
  error_text, value_or,
}
use distributed_workflow_sys.Apperror.{bad_request, forbidden, not_found, internal_server}
use distributed_workflow_sys.Domain.Workspace.{
  Workspace, WorkspaceInviteRequest, WorkspaceInvitation,
}
use distributed_workflow_sys.Domain.User.{UserSnapshot}
use distributed_workflow_sys.Domain.Event.{NotificationEventPayload}
use distributed_workflow_sys.Workspace.Service.{Service, id_failure, clock, send_notification}

-- `time.Hour * 24 * 14`.
abbrev pub invitation_lifetime : ℕ
invitation_lifetime = 3600000000000 * 24 * 14

unfoldable invited_payload : UserSnapshot → String → NotificationEventPayload
invited_payload u role = record {
  channel = "IN_APP";
  user_id = u.id;
  title = "Workspace Invitation";
  message = joined ("You have been invited to join the workspace as a " ∷ role ∷ []);
  kind = "INFO";
}

unfoldable pub member_joined_payload : Workspace → UserSnapshot → NotificationEventPayload
member_joined_payload ws u = record {
  channel = "IN_APP";
  user_id = ws.owner_id;
  title = "Workspace Member Joined";
  message =
      joined
        (u.full_name ∷ " has accepted the invitation and joined the workspace " ∷ ws.name ∷ []);
  kind = "SUCCESS";
}

unfoldable pub joined_payload : Workspace → String → NotificationEventPayload
joined_payload ws user_id = record {
  channel = "IN_APP";
  user_id = user_id;
  title = "Workspace Joined";
  message = joined ("You have successfully joined the workspace " ∷ ws.name ∷ []);
  kind = "SUCCESS";
}

abbrev pub invalid_link : Error
invalid_link = not_found "Invitation link is invalid or does not exist"

abbrev pub no_user : Error
no_user = not_found "Logged in user not found in the system"

abbrev link_expired : Error
link_expired = bad_request "This invitation link has expired"

abbrev other_email : Error
other_email =
    forbidden
      "This invitation was sent to a different email address. Please login with the correct account."

abbrev already_a_member : Error
already_a_member = bad_request "You are already a member of this workspace"

unfoldable already_settled : String → Error
already_settled status = bad_request (joined ("This invitation has already been " ∷ status ∷ []))

module _ {W : Type 0} (s : Service W) where
  unfoldable pub notify_invited : String → Result UserSnapshot → Act W (Unit {0})
  unfolding invited_payload
  notify_invited role (ok u) = send_notification s (invited_payload u role) u.id
  notify_invited role (fail e) = pure tt

  -- The link that is returned holds the new token.
  unfoldable pub invite_user : WorkspaceInviteRequest → Act W String
  unfolding id_failure notify_invited
  invite_user input = do
    token ← s.runtime.new_v4
    invite_id ← relabel (id_failure "invitation") s.runtime.new_v7
    now ← clock s
    relabel (λ err. internal_server "Could not process invitation")
        (s.ws_repo.create_invite input.workspace_id (record {
          id = invite_id;
          workspace_id = input.workspace_id;
          inviter_id = input.inviter_id;
          email = input.email;
          role = input.role;
          token = token;
          status = "PENDING";
          expires_at = now + invitation_lifetime;
          created_at = 0;
        }))
    invited_user ← attempt (s.user_repo.find_by_email input.email)
    notify_invited input.role invited_user
    relabel (λ err. internal_server (joined ("Temporal error: " ∷ error_text err ∷ [])))
        (s.execute_workflow (joined ("invite-user-" ∷ input.email ∷ [])) input.email input.role
          token)
    pure (joined (s.frontend_url ∷ "/invite/accept?token=" ∷ token ∷ []))

  -- The notifications at the end of AcceptInvitation.
  unfoldable pub announce_member :
      String → UserSnapshot → Result (Option Workspace) → Act W (Unit {0})
  unfolding member_joined_payload joined_payload
  announce_member user_id u (ok (some ws)) = do
    when (not (ws.owner_id == user_id))
        (send_notification s (member_joined_payload ws u) ws.owner_id)
    send_notification s (joined_payload ws user_id) user_id
  announce_member user_id u (ok none) = pure tt
  announce_member user_id u (fail e) = pure tt

  -- From the new member's id on.
  unfoldable pub join : WorkspaceInvitation → String → UserSnapshot → Act W (Unit {0})
  unfolding id_failure announce_member
  join invite user_id u = do
    member_id ← relabel (id_failure "member") s.runtime.new_v7
    relabel (λ err. internal_server "Could not accept invitation")
        (s.ws_repo.add_member invite.workspace_id (record {
          id = member_id;
          workspace_id = invite.workspace_id;
          user_id = user_id;
          role = invite.role;
          joined_at = 0;
        }))
    ignore (s.ws_repo.update_invite_status invite.workspace_id invite.id "ACCEPTED")
    ignore (s.cache.add_joined_workspace_id user_id invite.workspace_id)
    now ← clock s
    ignore (
        s.cache.add_member invite.workspace_id (record {
          user_id = user_id;
          full_name = u.full_name;
          email = u.email;
          role = invite.role;
          joined_at = now;
        }))
    ignore (s.cache.set_member_role invite.workspace_id user_id invite.role)
    ws ← attempt (s.ws_repo.find_by_id invite.workspace_id invite.workspace_id)
    announce_member user_id u ws

  -- A failing membership test counts as "no member".
  unfoldable pub join_once : WorkspaceInvitation → String → UserSnapshot → Bool → Act W (Unit {0})
  unfolding join
  join_once invite user_id u true = do
    ignore (s.ws_repo.update_invite_status invite.workspace_id invite.id "ACCEPTED")
    raise already_a_member
  join_once invite user_id u false = join invite user_id u

  unfoldable pub accept_as : WorkspaceInvitation → String → UserSnapshot → Act W (Unit {0})
  unfolding join_once
  accept_as invite user_id u = if not (invite.email == u.email) then raise other_email else (do
    already_member ← attempt (s.ws_repo.is_member invite.workspace_id user_id)
    join_once invite user_id u (value_or false already_member))

  unfoldable pub accept_at : WorkspaceInvitation → String → ℕ → Act W (Unit {0})
  unfolding accept_as
  accept_at invite user_id now =
      if ltb invite.expires_at now
      then (do
        ignore (s.ws_repo.update_invite_status invite.workspace_id invite.id "EXPIRED")
        raise link_expired)
      else (do
        u ← relabel (λ err. no_user) (s.user_repo.find_by_id user_id)
        accept_as invite user_id u)

  unfoldable pub accept_invite : WorkspaceInvitation → String → Act W (Unit {0})
  unfolding accept_at already_settled
  accept_invite invite user_id =
      if not (invite.status == "PENDING")
      then raise (already_settled invite.status)
      else (do now ← clock s; accept_at invite user_id now)

  unfoldable pub accept_invitation : String → String → Act W (Unit {0})
  unfolding accept_invite
  accept_invitation token user_id = do
    invite ← relabel (λ err. invalid_link) (s.ws_repo.find_invite_by_token "" token)
    accept_invite invite user_id
