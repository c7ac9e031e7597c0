-- ===== src/Workspace/Repository/Invites/Settled.antt =====
-- An invitation whose stored status is no longer PENDING, over the database of the repository.
use distributed_workflow_sys.Prelude.{◌≡◌, ◌≢◌, refl, sym, ap, ◌∙◌, String, List}
use distributed_workflow_sys.Prelude.Act.{Result, ok, fail}
use distributed_workflow_sys.Prelude.Keeps.{Returns, after-idle}
use distributed_workflow_sys.Domain.Workspace.{WorkspaceInvitation}
use distributed_workflow_sys.Sql.{Value, text, time, number, flag, null}
use distributed_workflow_sys.Sql.Query.{Row, Db}
use distributed_workflow_sys.Sql.Laws.{Answers, first_row}
use distributed_workflow_sys.Sql.Meaning.{Tables}
use distributed_workflow_sys.Sql.Scan.{as_text, as_time}
use distributed_workflow_sys.Workspace.Service.{Service}
use distributed_workflow_sys.Workspace.Temporal.{EmailClient}
use distributed_workflow_sys.Workspace.Invitation.{Stored, Request, handle_all, handle_all-settled}
use distributed_workflow_sys.Workspace.Repository.{
  scan_invite, find_invite_by_token, update_invite_status, repository,
}
use distributed_workflow_sys.Workspace.Repository.Invites.{
  after-ok, InviteRow-scan_invite, found, find_invite_by_token-found,
  update_invite_status-find_invite_by_token,
}

module _ {W : Type 0} where
  -- Scanning does not change the world.
  scan_invite-idle : (row : Row) (w : W) → (scan_invite row w).1 ≡ w
  unfolding scan_invite
  scan_invite-idle row w = after-idle (as_text (row "id")) _ w λ id.
      after-idle (as_text (row "workspace_id")) _ w λ workspace_id.
        after-idle (as_text (row "inviter_id")) _ w λ inviter_id.
          after-idle (as_text (row "email")) _ w λ email.
            after-idle (as_text (row "role")) _ w λ role.
              after-idle (as_text (row "token")) _ w λ token.
                after-idle (as_text (row "status")) _ w λ status.
                  after-idle (as_time (row "expires_at")) _ w
                    λ expires_at. after-idle (as_time (row "created_at")) _ w λ created_at. refl

  Returns-intro :
      {A : Type 0} (R : A → Type 0) (r : Result A × W)
      → ((a : A) (w : W) → r ≡ (ok a, w) → R a)
      → Returns R r.0
  Returns-intro R (ok a, w) h = h a w refl
  Returns-intro R (fail e, w) h = tt

abbrev text_or_empty : Value → String
text_or_empty (text s) = s
text_or_empty (time t) = ""
text_or_empty (number n) = ""
text_or_empty (flag b) = ""
text_or_empty null = ""

abbrev shown_status : Result Row → String
shown_status (ok row) = text_or_empty (row "status")
shown_status (fail e) = ""

module _ {W : Type 0} (db : Db W) (tables : W → Tables) (answers : Answers db tables)
    (token : String) where
  abbrev status_of : W → String
  status_of w = shown_status (first_row (found db tables answers token w))

  found-status :
      (w : W) (i : WorkspaceInvitation) (w1 : W)
      → find_invite_by_token db "" token w ≡ (ok i, w1)
      → i.status ≡ status_of w
  found-status w i w1 h =
      let (row, e, k) =
        after-ok (first_row (found db tables answers token w)) scan_invite w w1 i
          (sym (find_invite_by_token-found db tables answers token w) ∙ h) in
      let (idle, fields) = InviteRow-scan_invite i row w w1 k in
      sym (ap shown_status e ∙ ap text_or_empty (fields.6))

  stored : (s : Service W) → Stored (record s { ws_repo = repository db }) token status_of
  stored s = record {
    keeps = λ w. ap status_of (
        ap (λ o. o.1) (find_invite_by_token-found db tables answers token w)
        ∙ after-idle (first_row (found db tables answers token w)) scan_invite w
            (λ row. scan_invite-idle row w));
    shows = λ w.
        Returns-intro (λ i. i.status ≡ status_of w) (find_invite_by_token db "" token w)
          (found-status w);
  }

  -- Over a database that answers as documented: once the status of an invitation is updated to
  -- anything but PENDING without an error, the lookup by its token gives no other status any more,
  -- whatever requests the holders of its link and the workflow make, in any order.
  pub update_invite_status-settled :
      (s : Service W) (email_client : EmailClient W) (status : String)
      (invite : WorkspaceInvitation) (w w1 w2 : W) (rs : List Request)
      → find_invite_by_token db "" token w ≡ (ok invite, w1)
      → update_invite_status db invite.workspace_id invite.id status w1 ≡ (ok tt, w2)
      → status ≢ "PENDING"
      → Returns
          (λ (i : WorkspaceInvitation). i.status ≡ status)
          (find_invite_by_token db "" token (
            handle_all
              (record s { ws_repo = repository db })
              (record { repo = repository db; email_client = email_client })
              token
              rs
              w2)).0
  update_invite_status-settled s email_client status invite w w1 w2 rs seen changed other =
      let s' = record s { ws_repo = repository db } in
      let w3 =
        handle_all s' (record { repo = repository db; email_client = email_client }) token rs w2 in
      let new : status ≡ status_of w2 =
        found-status w2 (record invite { status = status }) w2
          (update_invite_status-find_invite_by_token db tables answers token status invite w w1 w2
            seen changed) in
      let kept =
        handle_all-settled s' email_client token status_of (stored s) rs w2
          (λ e. other (new ∙ e)) in
      Returns-intro (λ i. i.status ≡ status) (find_invite_by_token db "" token w3)
        (λ i w4 h. found-status w3 i w4 h ∙ kept ∙ sym new)
