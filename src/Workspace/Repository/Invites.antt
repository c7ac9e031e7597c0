-- ===== src/Workspace/Repository/Invites.antt =====
-- Invitations in the database: a new status is read back, and settles the invitation.
pub mod Settled
use distributed_workflow_sys.Prelude.{
  ℕ, ◌≡◌, ◌≢◌, refl, sym, ap, ◌∙◌, subst, String, Option, some, none, Bool, true, false, List, [],
  ◌∷◌, map, keep, ◌==◌, eq_refl, if◌then◌else◌,
}
use distributed_workflow_sys.Prelude.Act.{Act, Result, ok, fail, after}
use distributed_workflow_sys.Prelude.Keeps.{IsFail}
use distributed_workflow_sys.Domain.Workspace.{WorkspaceInvitation}
use distributed_workflow_sys.Sql.{Value, text, time}
use distributed_workflow_sys.Sql.Query.{Row, Db, select, columns_of, Condition, equal, column}
use distributed_workflow_sys.Sql.Laws.{Answers, first_row, assigned, updated}
use distributed_workflow_sys.Sql.Meaning.{Tables, answer, all_hold, shown_as}
use distributed_workflow_sys.Sql.Select.{
  answer-one_table, scope_of, first_row-updated, as_text-after, as_time-after,
}
use distributed_workflow_sys.Workspace.Repository.{
  scan_invite, find_invite_by_token, update_invite_status,
}
use distributed_workflow_sys.Workspace.Repository.Statements.{invite_by_token, invite_key}

-- The row of an invitation.
abbrev pub InviteRow : WorkspaceInvitation → Row → Type 0
InviteRow i row =
    (row "id" ≡ text i.id)
    × (row "workspace_id" ≡ text i.workspace_id)
    × (row "inviter_id" ≡ text i.inviter_id)
    × (row "email" ≡ text i.email)
    × (row "role" ≡ text i.role)
    × (row "token" ≡ text i.token)
    × (row "status" ≡ text i.status)
    × (row "expires_at" ≡ time i.expires_at)
    × (row "created_at" ≡ time i.created_at)

-- A field of a result.
abbrev field : {A B : Type 0} → (A → B) → B → Result A → B
field f d (ok a) = f a
field f d (fail e) = d

module _ {W : Type 0} where
  -- What an action did that succeeded after another.
  pub after-ok :
      {A B : Type 0} (r : Result A) (f : A → Act W B) (w w' : W) (b : B)
      → after (r, w) f ≡ (ok b, w')
      → (a : A) × (r ≡ ok a) × (f a w ≡ (ok b, w'))
  after-ok (ok a) f w w' b h = (a, refl, h)
  after-ok (fail e) f w w' b h = absurd (subst (λ o. IsFail o.0) h tt)

  pub InviteRow-scan_invite :
      (i : WorkspaceInvitation) (row : Row) (w w' : W)
      → scan_invite row w ≡ (ok i, w')
      → (w ≡ w') × InviteRow i row
  unfolding scan_invite
  InviteRow-scan_invite i row w w' h =
      let (x0, e0, h0) = as_text-after (row "id") _ w w' i h in
      let (x1, e1, h1) = as_text-after (row "workspace_id") _ w w' i h0 in
      let (x2, e2, h2) = as_text-after (row "inviter_id") _ w w' i h1 in
      let (x3, e3, h3) = as_text-after (row "email") _ w w' i h2 in
      let (x4, e4, h4) = as_text-after (row "role") _ w w' i h3 in
      let (x5, e5, h5) = as_text-after (row "token") _ w w' i h4 in
      let (x6, e6, h6) = as_text-after (row "status") _ w w' i h5 in
      let (x7, e7, h7) = as_time-after (row "expires_at") _ w w' i h6 in
      let (x8, e8, h8) = as_time-after (row "created_at") _ w w' i h7 in
      let shown : (f : WorkspaceInvitation → String) → ◌≡◌ {A = Value} _ (text (f i)) =
        λ f. ap (λ (o : Result WorkspaceInvitation × W). text (field f "" o.0)) h8 in
      let shown_time : (f : WorkspaceInvitation → ℕ) → ◌≡◌ {A = Value} _ (time (f i)) =
        λ f. ap (λ (o : Result WorkspaceInvitation × W). time (field f 0 o.0)) h8 in
      (
        ap (λ (o : Result WorkspaceInvitation × W). o.1) h8,
        (
          e0 ∙ shown (λ i. i.id),
          e1 ∙ shown (λ i. i.workspace_id),
          e2 ∙ shown (λ i. i.inviter_id),
          e3 ∙ shown (λ i. i.email),
          e4 ∙ shown (λ i. i.role),
          e5 ∙ shown (λ i. i.token),
          e6 ∙ shown (λ i. i.status),
          e7 ∙ shown_time (λ i. i.expires_at),
          e8 ∙ shown_time (λ i. i.created_at),
        ),
      )

  scan_invite-InviteRow :
      (i : WorkspaceInvitation) (row : Row) (w : W)
      → InviteRow i row
      → scan_invite row w ≡ (ok i, w)
  unfolding scan_invite
  scan_invite-InviteRow i row w h = rw (h.0, h.1, h.2, h.3, h.4, h.5, h.6, h.7, h.8) refl

module _ {W : Type 0} (db : Db W) (tables : W → Tables) (answers : Answers db tables) where
  -- The rows that the lookup by token finds, as the statement shows them.
  abbrev pub found : String → W → List Row
  found token w = answer (tables w) (select invite_by_token) (text token ∷ [])

  pub find_invite_by_token-found :
      (token : String) (w : W)
      → find_invite_by_token db "" token w ≡ after (first_row (found token w), w) scan_invite
  unfolding find_invite_by_token
  find_invite_by_token-found token w =
      rw (answers.get (select invite_by_token) (text token ∷ []) w) refl

  -- The row that the lookup finds after an UPDATE of the status of the one it found before.
  found-updated :
      (token status : String) (invite : WorkspaceInvitation) (row : Row) (w w' : W)
      → first_row (found token w) ≡ ok row
      → InviteRow invite row
      → tables w' "workspace_invitations"
        ≡ updated
            (text status ∷ text invite.id ∷ text invite.workspace_id ∷ [])
            (("status", 1) ∷ [])
            invite_key
            (tables w "workspace_invitations")
      → (row' : Row) × (first_row (found token w') ≡ ok row')
        × InviteRow (record invite { status = status }) row'
  found-updated token status invite row w w' seen fields changed =
      let args = text status ∷ text invite.id ∷ text invite.workspace_id ∷ [] in
      let q = invite_by_token in
      let shown : Row → Row = λ r. shown_as q.columns (scope_of r) in
      let p : Row → Bool = λ r. all_hold (text token ∷ []) q.conditions (scope_of r) in
      let listed : (v : W) → found token v ≡ map shown (keep p (tables v "workspace_invitations")) =
        λ v. answer-one_table (tables v) q.columns q.table q.conditions (text token ∷ []) in
      let (r, e, h) =
        first_row-updated p shown args (("status", 1) ∷ []) invite_key
          (tables w "workspace_invitations") row (λ r. refl)
          (ap first_row (sym (listed w)) ∙ seen) in
      let f : InviteRow invite (shown r) = subst (InviteRow invite) e fields in
      let meets : all_hold args invite_key (λ alias. r) ≡ true =
        rw (f.0, f.1, eq_refl invite.id, eq_refl invite.workspace_id) refl in
      (
        shown (assigned args (("status", 1) ∷ []) r),
        ap first_row (listed w' ∙ ap (λ rows. map shown (keep p rows)) changed) ∙ (rw meets at h),
        (f.0, f.1, f.2, f.3, f.4, f.5, refl, f.7, f.8),
      )

  -- Over a database that answers as documented, an invitation that the lookup by token finds, and
  -- whose status is then updated without an error, is found with the new status and is otherwise
  -- the same.
  pub update_invite_status-find_invite_by_token :
      (token status : String) (invite : WorkspaceInvitation) (w w1 w2 : W)
      → find_invite_by_token db "" token w ≡ (ok invite, w1)
      → update_invite_status db invite.workspace_id invite.id status w1 ≡ (ok tt, w2)
      → find_invite_by_token db "" token w2 ≡ (ok (record invite { status = status }), w2)
  unfolding update_invite_status
  update_invite_status-find_invite_by_token token status invite w w1 w2 seen changed =
      let args = text status ∷ text invite.id ∷ text invite.workspace_id ∷ [] in
      let (row, e, h) =
        after-ok (first_row (found token w)) scan_invite w w1 invite
          (sym (find_invite_by_token-found token w) ∙ seen) in
      let (idle, fields) = InviteRow-scan_invite invite row w w1 h in
      let (row', e', fields') = found-updated token status invite row w w2 e fields (
        answers.updates _ _ _ args w1 w2 changed
        ∙ ap (λ v. updated args (("status", 1) ∷ []) invite_key (tables v "workspace_invitations"))
            (sym idle)) in
      find_invite_by_token-found token w2
      ∙ rw e' (scan_invite-InviteRow (record invite { status = status }) row' w2 fields')
