-- ===== src/Workspace/Repository/Apart.antt =====
-- What AcceptInvitation does beside adding the member, over the database of the repository: it
-- leaves the table of members alone.
use distributed_workflow_sys.Prelude.{
  ◌≡◌, refl, sym, ◌∙◌, subst, String, Option, none, some, Bool, true, false, List, [], ◌∷◌, ◌==◌,
  not,
}
use distributed_workflow_sys.Prelude.Act.{
  Act, Error, Result, ok, fail, ◌>>=◌, ◌>>◌, ignore, attempt, when,
}
use distributed_workflow_sys.Prelude.Keeps.{Keeps, Keeps-bind, after-idle}
use distributed_workflow_sys.Domain.Workspace.{
  Workspace, WorkspaceInvitation, WorkspaceMemberResponse,
}
use distributed_workflow_sys.Domain.User.{UserSnapshot}
use distributed_workflow_sys.Domain.Event.{NotificationEventPayload}
use distributed_workflow_sys.Sql.{text}
use distributed_workflow_sys.Sql.Query.{Row, Db, select}
use distributed_workflow_sys.Sql.Laws.{Answers}
use distributed_workflow_sys.Sql.Meaning.{Tables}
use distributed_workflow_sys.Sql.Scan.{as_text, as_time, none_if_no_rows}
use distributed_workflow_sys.Workspace.Service.{Service, clock, send_notification}
use distributed_workflow_sys.Workspace.Invite.{
  announce_member, member_joined_payload, joined_payload,
}
use distributed_workflow_sys.Workspace.Repository.{
  repository, scan_workspace, find_by_id, update_invite_status,
}
use distributed_workflow_sys.Workspace.Repository.Statements.{workspace_by_id, update_invite_row}

-- `P` is kept by the calls of AcceptInvitation that are not the repository's.
pub record Apart {W : Type 0} (s : Service W) (P : W → Type 0) : Type 0 where
  pub new_id : Keeps P s.runtime.new_v7
  pub now : (w : W) → P w → P (s.runtime.now w).1
  pub cache_joined : (a b : String) → Keeps P (s.cache.add_joined_workspace_id a b)
  pub cache_member : (a : String) (m : WorkspaceMemberResponse) → Keeps P (s.cache.add_member a m)
  pub cache_role : (a b role : String) → Keeps P (s.cache.set_member_role a b role)
  pub notify :
      (payload : NotificationEventPayload) (key : String)
      → Keeps P (send_notification s payload key)

scan_workspace-idle : {W : Type 0} (row : Row) (w : W) → (scan_workspace row w).1 ≡ w
unfolding scan_workspace
scan_workspace-idle row w = after-idle (as_text (row "id")) _ w λ id.
    after-idle (as_text (row "name")) _ w λ name. after-idle (as_text (row "slug")) _ w λ slug.
      after-idle (as_text (row "owner_id")) _ w λ owner_id.
        after-idle (as_text (row "description")) _ w
          λ description. after-idle (as_time (row "created_at")) _ w λ created_at. refl

module _ {W : Type 0} (P : W → Type 0) where
  none_if_no_rows-Keeps : {A : Type 0} (r : Result A × W) → P r.1 → P (none_if_no_rows r).1
  none_if_no_rows-Keeps (ok a, w) h = h
  none_if_no_rows-Keeps (fail (Error.app e), w) h = h
  none_if_no_rows-Keeps (fail Error.no_rows, w) h = h
  none_if_no_rows-Keeps (fail (Error.other e), w) h = h

  when-Keeps : (b : Bool) (m : Act W (Unit {0})) → Keeps P m → Keeps P (when b m)
  when-Keeps true m h w k = h w k
  when-Keeps false m h w k = k

-- The service over the repository.
abbrev pub over : {W : Type 0} → Db W → Service W → Service W
over db s = record s { ws_repo = repository db }

module _ {W : Type 0} (db : Db W) (s : Service W) where
  -- What AcceptInvitation does once the member is added.
  abbrev pub rest : WorkspaceInvitation → String → UserSnapshot → Act W (Unit {0})
  rest invite user_id u = do
    ignore (update_invite_status db invite.workspace_id invite.id "ACCEPTED")
    ignore (s.cache.add_joined_workspace_id user_id invite.workspace_id)
    now ← clock s
    ignore (
        s.cache.add_member invite.workspace_id (record {
          user_id = user_id;
          full_name = u.full_name;
          email = u.email;
          role = invite.role;
          joined_at = now;
        }))
    ignore (s.cache.set_member_role invite.workspace_id user_id invite.role)
    ws ← attempt (find_by_id db invite.workspace_id invite.workspace_id)
    announce_member (over db s) user_id u ws

module _ {W : Type 0} (tables : W → Tables) where
  -- The table of members is `M`.
  abbrev pub MembersAre : List Row → W → Type 0
  MembersAre M w = tables w "workspace_members" ≡ M

module _ {W : Type 0} (db : Db W) (tables : W → Tables) (answers : Answers db tables)
    (s : Service W) (apart : (M : List Row) → Apart s (λ w. tables w "workspace_members" ≡ M)) where
  announce_member-Keeps :
      (M : List Row) (user_id : String) (u : UserSnapshot) (r : Result (Option Workspace))
      → Keeps (MembersAre tables M) (announce_member (over db s) user_id u r)
  unfolding announce_member send_notification
  announce_member-Keeps M user_id u (ok (some ws)) w h =
      let to_owner = send_notification s (member_joined_payload ws u) ws.owner_id in
      let to_member = send_notification s (joined_payload ws user_id) user_id in
      Keeps-bind (when (not (ws.owner_id == user_id)) to_owner) (λ a. to_member)
        (when-Keeps (MembersAre tables M) (not (ws.owner_id == user_id)) to_owner
          ((apart M).notify (member_joined_payload ws u) ws.owner_id))
        (λ a. (apart M).notify (joined_payload ws user_id) user_id) w h
  announce_member-Keeps M user_id u (ok none) w h = h
  announce_member-Keeps M user_id u (fail e) w h = h

  find_by_id-Keeps : (M : List Row) (a b : String) → Keeps (MembersAre tables M) (find_by_id db a b)
  unfolding find_by_id
  find_by_id-Keeps M a b w h = none_if_no_rows-Keeps (MembersAre tables M) _ (
      Keeps-bind (db.get_context (select workspace_by_id) (text b ∷ [])) scan_workspace
        (λ v k. subst (λ o. MembersAre tables M o.1) (sym (answers.get _ _ v)) k)
        (λ row v k. subst (MembersAre tables M) (sym (scan_workspace-idle row v)) k) w h)

  update_invite_status-Keeps :
      (M : List Row) (a b status : String)
      → Keeps (MembersAre tables M) (update_invite_status db a b status)
  unfolding update_invite_status
  update_invite_status-Keeps M a b status w h =
      answers.elsewhere update_invite_row _ w "workspace_members" refl ∙ h

  pub rest-Keeps :
      (M : List Row) (invite : WorkspaceInvitation) (user_id : String) (u : UserSnapshot)
      → Keeps (MembersAre tables M) (rest db s invite user_id u)
  rest-Keeps M invite user_id u w h =
      let a = apart M in
      let h1 = update_invite_status-Keeps M invite.workspace_id invite.id "ACCEPTED" w h in
      let h2 = a.cache_joined user_id invite.workspace_id _ h1 in
      let h3 = a.now _ h2 in
      let h4 = a.cache_member invite.workspace_id _ _ h3 in
      let h5 = a.cache_role invite.workspace_id user_id invite.role _ h4 in
      let h6 = find_by_id-Keeps M invite.workspace_id invite.workspace_id _ h5 in
      announce_member-Keeps M user_id u _ _ h6
