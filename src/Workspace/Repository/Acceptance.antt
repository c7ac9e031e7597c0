-- ===== src/Workspace/Repository/Acceptance.antt =====
-- Who accepted an invitation is a member: AcceptInvitation over the database of the repository.
use distributed_workflow_sys.Prelude.{
  ℕ, ◌≡◌, refl, ap, ◌∙◌, subst, String, true, inl, inr, Bool-cases, List, [], ◌∷◌, keep, ◌==◌, ltb,
}
use distributed_workflow_sys.Prelude.Act.{ok, relabelled}
use distributed_workflow_sys.Prelude.Keeps.{IsFail, after-inv, relabelled-inv}
use distributed_workflow_sys.Domain.Workspace.{WorkspaceInvitation, WorkspaceMember}
use distributed_workflow_sys.Domain.User.{UserSnapshot}
use distributed_workflow_sys.Apperror.{internal_server}
use distributed_workflow_sys.Sql.Query.{Row, Db}
use distributed_workflow_sys.Sql.Laws.{Answers}
use distributed_workflow_sys.Sql.Meaning.{Tables}
use distributed_workflow_sys.Workspace.Service.{Service, id_failure}
use distributed_workflow_sys.Workspace.Invite.{
  invalid_link, no_user, join, join_once, accept_as, accept_at, accept_invite, accept_invitation,
}
use distributed_workflow_sys.Workspace.Repository.{
  find_invite_by_token, is_member, add_member, get_member_role,
}
use distributed_workflow_sys.Workspace.Repository.Apart.{Apart, over, MembersAre, rest, rest-Keeps}
use distributed_workflow_sys.Workspace.Repository.Membership.{
  is_row_of, member_row, nonempty, nonempty-false, is_member-rows, get_member_role-rows,
  add_member-row,
}

module _ {W : Type 0} (db : Db W) (tables : W → Tables) (answers : Answers db tables)
    (s : Service W) (apart : (M : List Row) → Apart s (λ w. tables w "workspace_members" ≡ M)) where
  -- The user is a member of the invitation's workspace with its role.
  abbrev pub Joined : WorkspaceInvitation → String → W → Type 0
  Joined invite user_id w =
      (is_member db invite.workspace_id user_id w ≡ (ok true, w))
      × (get_member_role db invite.workspace_id user_id w ≡ (ok invite.role, w))

  abbrev new_member : WorkspaceInvitation → String → String → WorkspaceMember
  new_member invite user_id member_id = record {
    id = member_id;
    workspace_id = invite.workspace_id;
    user_id = user_id;
    role = invite.role;
    joined_at = 0;
  }

  -- The one row of the new member, once the insertion has returned.
  new_member-row :
      (invite : WorkspaceInvitation) (user_id member_id : String) (w w1 w2 : W)
      → keep (is_row_of invite.workspace_id user_id) (tables w "workspace_members") ≡ []
      → s.runtime.new_v7 w ≡ (ok member_id, w1)
      → add_member db invite.workspace_id (new_member invite user_id member_id) w1 ≡ (ok tt, w2)
      → (d : Row) × (keep (is_row_of invite.workspace_id user_id) (tables w2 "workspace_members")
          ≡ member_row (new_member invite user_id member_id) d ∷ [])
  new_member-row invite user_id member_id w w1 w2 none_yet drawn added =
      let M = tables w "workspace_members" in
      let same : tables w1 "workspace_members" ≡ M =
        subst (λ o. MembersAre tables M o.1) drawn ((apart M).new_id w refl) in
      add_member-row db tables answers invite.workspace_id (new_member invite user_id member_id) w1
        w2 (ap (keep (is_row_of invite.workspace_id user_id)) same ∙ none_yet) added

  join-Joined :
      (invite : WorkspaceInvitation) (user_id : String) (u : UserSnapshot) (w w' : W)
      → keep (is_row_of invite.workspace_id user_id) (tables w "workspace_members") ≡ []
      → join (over db s) invite user_id u w ≡ (ok tt, w')
      → Joined invite user_id w'
  unfolding join
  join-Joined invite user_id u w w' none_yet h =
      let (member_id, w1, e1, h1) =
        after-inv (relabelled (id_failure "member") (s.runtime.new_v7 w)) _ tt w' h in
      let adds = add_member db invite.workspace_id (new_member invite user_id member_id) in
      let (added, w2, e2, h2) =
        after-inv (relabelled (λ err. internal_server "Could not accept invitation") (adds w1))
          (λ a. rest db s invite user_id u) tt w' h1 in
      let (d, one) =
        new_member-row invite user_id member_id w w1 w2 none_yet
          (relabelled-inv _ (s.runtime.new_v7 w) member_id w1 e1)
          (relabelled-inv _ (adds w1) added w2 e2) in
      let M = tables w2 "workspace_members" in
      let same : tables w' "workspace_members" ≡ M =
        subst (λ o. MembersAre tables M o.1) h2
          (rest-Keeps db tables answers s apart M invite user_id u w2 refl) in
      let here = ap (keep (is_row_of invite.workspace_id user_id)) same ∙ one in
      (
        is_member-rows db tables answers invite.workspace_id user_id w' ∙ rw here refl,
        get_member_role-rows db tables answers invite.workspace_id user_id w' ∙ rw here refl,
      )

  accept_as-Joined :
      (invite : WorkspaceInvitation) (user_id : String) (u : UserSnapshot) (w w' : W)
      → accept_as (over db s) invite user_id u w ≡ (ok tt, w')
      → Joined invite user_id w'
  unfolding accept_as join_once
  accept_as-Joined invite user_id u w w' h = elim (Bool-cases (invite.email == u.email)) [
    | inr other ↦ absurd (subst (λ o. IsFail o.0) (rw other at h) tt)
    | inl same ↦
        let rows = keep (is_row_of invite.workspace_id user_id) (tables w "workspace_members") in
        let counted = is_member-rows db tables answers invite.workspace_id user_id w in
        elim (Bool-cases (nonempty rows)) [
          | inl member ↦ absurd (subst (λ o. IsFail o.0) (rw (same, counted, member) at h) tt)
          | inr stranger ↦
              join-Joined invite user_id u w w' (nonempty-false rows stranger)
                (rw (same, counted, stranger) at h)
        ]
  ]

  accept_at-Joined :
      (invite : WorkspaceInvitation) (user_id : String) (now : ℕ) (w w' : W)
      → accept_at (over db s) invite user_id now w ≡ (ok tt, w')
      → Joined invite user_id w'
  unfolding accept_at
  accept_at-Joined invite user_id now w w' h = elim (Bool-cases (ltb invite.expires_at now)) [
    | inl late ↦ absurd (subst (λ o. IsFail o.0) (rw late at h) tt)
    | inr timely ↦
        let (u, w1, e, h1) =
          after-inv (relabelled (λ err. no_user) (s.user_repo.find_by_id user_id w))
            (accept_as (over db s) invite user_id) tt w' (rw timely at h) in
        accept_as-Joined invite user_id u w1 w' h1
  ]

  accept_invite-Joined :
      (invite : WorkspaceInvitation) (user_id : String) (w w' : W)
      → accept_invite (over db s) invite user_id w ≡ (ok tt, w')
      → Joined invite user_id w'
  unfolding accept_invite
  accept_invite-Joined invite user_id w w' h = elim (Bool-cases (invite.status == "PENDING")) [
    | inr settled ↦ absurd (subst (λ o. IsFail o.0) (rw settled at h) tt)
    | inl pending ↦
        accept_at-Joined invite user_id (s.runtime.now w).0 (s.runtime.now w).1 w' (rw pending at h)
  ]

  -- Over a database that answers as documented, where the calls that are not the repository's leave
  -- the table of members alone, a user whose acceptance returns without an error is a member,
  -- afterwards, of the workspace of the invitation that the token stands for, with the role of the
  -- invitation.
  pub accept_invitation-Joined :
      (token user_id : String) (w w' : W)
      → accept_invitation (over db s) token user_id w ≡ (ok tt, w')
      → (invite : WorkspaceInvitation) × ((find_invite_by_token db "" token w).0 ≡ ok invite)
        × Joined invite user_id w'
  unfolding accept_invitation
  accept_invitation-Joined token user_id w w' h =
      let (invite, w1, e, h1) =
        after-inv (relabelled (λ err. invalid_link) (find_invite_by_token db "" token w))
          (λ i. accept_invite (over db s) i user_id) tt w' h in
      (
        invite,
        ap (λ o. o.0) (relabelled-inv _ (find_invite_by_token db "" token w) invite w1 e),
        accept_invite-Joined invite user_id w1 w' h1,
      )
