-- ===== src/Workspace/Invite/Open.antt =====
-- Whom InviteUser lets invite, and what an invitation that was sent has stored.
use distributed_workflow_sys.Prelude.{ℕ, ◌+◌, ◌*◌, ◌≡◌, String, Option, List, [], ◌∷◌, Bool, joined}
use distributed_workflow_sys.Prelude.Act.{Act, ok, ◌>>=◌, ◌>>◌, attempt, pure, relabel, error_text}
use distributed_workflow_sys.Apperror.{internal_server}
use distributed_workflow_sys.Domain.Workspace.{
  Workspace, WorkspaceMemberResponse, WorkspaceInvitation, WorkspaceInviteRequest, WorkspaceCache,
}
use distributed_workflow_sys.Workspace.Service.{Service}
use distributed_workflow_sys.Workspace.Invite.{notify_invited}

module _ {W : Type 0} (s : Service W) where
  -- Another service, in which the workspaces and their members are anything.
  abbrev pub with_members :
      (String → String → Act W (Option Workspace))
      → (String → String → Act W Bool)
      → (String → String → Act W String)
      → (String → Act W (List WorkspaceMemberResponse))
      → WorkspaceCache W
      → Service W
  with_members find is_member role members cache = record s {
    ws_repo = record s.ws_repo {
      find_by_id = find;
      is_member = is_member;
      get_member_role = role;
      get_members = members;
    };
    cache = cache;
  }

  abbrev pub sent_invitation : WorkspaceInviteRequest → String → String → ℕ → WorkspaceInvitation
  sent_invitation input id token now = record {
    id = id;
    workspace_id = input.workspace_id;
    inviter_id = input.inviter_id;
    email = input.email;
    role = input.role;
    token = token;
    status = "PENDING";
    expires_at = now + 14 * (24 * (60 * (60 * 1000000000)));
    created_at = 0;
  }

  -- In the world `w` a fresh token and id were drawn and the clock was read; with these the
  -- invitation was stored, and the link has its token.
  abbrev pub Sent : WorkspaceInviteRequest → String → W → Type 0
  Sent input link w =
      (token : String) × (w1 : W) × (id : String) × (w2 : W) × (w3 : W) × (s.runtime.new_v4 w
        ≡ (ok token, w1))
      × (s.runtime.new_v7 w1 ≡ (ok id, w2))
      × (s.ws_repo.create_invite input.workspace_id
            (sent_invitation input id token (s.runtime.now w2).0) (s.runtime.now w2).1
          ≡ (ok tt, w3))
      × (link ≡ joined (s.frontend_url ∷ "/invite/accept?token=" ∷ token ∷ []))

  abbrev start_workflow : WorkspaceInviteRequest → String → Act W String
  start_workflow input token = do
    relabel (λ err. internal_server (joined ("Temporal error: " ∷ error_text err ∷ [])))
        (s.execute_workflow (joined ("invite-user-" ∷ input.email ∷ [])) input.email input.role
          token)
    pure (joined (s.frontend_url ∷ "/invite/accept?token=" ∷ token ∷ []))

  -- What follows once the invitation is stored.
  abbrev tell : WorkspaceInviteRequest → String → Act W String
  tell input token = attempt (s.user_repo.find_by_email input.email) >>= λ invited_user.
      notify_invited s input.role invited_user >> start_workflow input token
