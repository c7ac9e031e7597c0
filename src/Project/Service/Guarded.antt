-- ===== src/Project/Service/Guarded.antt =====
-- Who may create a project.
use distributed_workflow_sys.Prelude.{
  ◌≡◌, refl, subst, String, Option, none, some, ◌⊎◌, ℕ, inl, inr, ◌≢◌, arith, Bool-cases, ◌==◌,
  eq_iff, sym,
}
use distributed_workflow_sys.Prelude.Act.{Act, after, Result, ok, fail, relabel, ◌>>=◌, value_or}
use distributed_workflow_sys.Prelude.Keeps.{
  Keeps, Keeps-if, Keeps-bind, Refused, Refused-bind, after_assoc, if_cases, IsFail,
  relabelled-Keeps, relabelled-ok,
}
use distributed_workflow_sys.Domain.Workspace.{Workspace}
use distributed_workflow_sys.Domain.Project.{ProjectCreateInput}
use distributed_workflow_sys.Project.Service.{
  Service, remember_workspace, workspace_or_fetch, get_workspace, role_or_fetch, cached_role,
  get_member_role, stranger, require_workspace, admin_role, require_admin, member_role,
  require_member, get_projects_by_workspace, list_projects, require_role, add_project,
  create_project,
}

-- The reads of the check, with the cache entries that they fill, keep a predicate of the world.
pub record Quiet {W : Type 0} (s : Service W) (P : W → Type 0) : Type 0 where
  pub get_workspace_meta : (id : String) → Keeps P (s.ws_cache.get_workspace_meta id)
  pub find_by_id : (id : String) → Keeps P (s.ws_repo.find_by_id id id)
  pub set_workspace_meta : (ws : Workspace) → Keeps P (s.ws_cache.set_workspace_meta ws)
  pub cached_member_role : (id user_id : String) → Keeps P (s.ws_cache.get_member_role id user_id)
  pub stored_member_role : (id user_id : String) → Keeps P (s.ws_repo.get_member_role id user_id)
  pub set_member_role :
      (id user_id role : String) → Keeps P (s.ws_cache.set_member_role id user_id role)

module _ {W : Type 0} (s : Service W) (P : W → Type 0) (q : Quiet s P)
    (workspace_id user_id : String) where
  remember_workspace-Keeps : (o : Option Workspace) → Keeps P (remember_workspace s o)
  unfolding remember_workspace
  remember_workspace-Keeps none w h = h
  remember_workspace-Keeps (some ws) w h = q.set_workspace_meta ws w h

  workspace_or_fetch-Keeps : (o : Option Workspace) → Keeps P (workspace_or_fetch s workspace_id o)
  unfolding workspace_or_fetch
  workspace_or_fetch-Keeps (some ws) w h = h
  workspace_or_fetch-Keeps none w h =
      Keeps-bind (s.ws_repo.find_by_id workspace_id workspace_id) (remember_workspace s)
        (q.find_by_id workspace_id) remember_workspace-Keeps w h

  get_workspace-Keeps : Keeps P (get_workspace s workspace_id)
  unfolding get_workspace
  get_workspace-Keeps w h =
      workspace_or_fetch-Keeps (value_or none (s.ws_cache.get_workspace_meta workspace_id w).0) _
        (q.get_workspace_meta workspace_id w h)

  role_or_fetch-Keeps : (o : Option String) → Keeps P (role_or_fetch s workspace_id user_id o)
  unfolding role_or_fetch
  role_or_fetch-Keeps (some role) w h = h
  role_or_fetch-Keeps none w h =
      Keeps-bind (s.ws_repo.get_member_role workspace_id user_id) _
        (q.stored_member_role workspace_id user_id) (q.set_member_role workspace_id user_id) w h

  get_member_role-Keeps :
      (owner_id : String) → Keeps P (get_member_role s workspace_id user_id owner_id)
  unfolding get_member_role cached_role
  get_member_role-Keeps owner_id =
      Keeps-if (owner_id == user_id) _ _ (λ w h. h)
        (λ w h.
          role_or_fetch-Keeps (value_or none (s.ws_cache.get_member_role workspace_id user_id w).0)
            _ (q.cached_member_role workspace_id user_id w h))

  -- The workspace, as it was read in the world `w`, belongs to the user, or the role that was read
  -- next is good enough.
  abbrev pub Entitled : (String → Type 0) → W → Type 0
  Entitled Good w =
      (ws : Workspace) × (w1 : W) × (get_workspace s workspace_id w ≡ (ok (some ws), w1))
      × ((ws.owner_id ≡ user_id)
          ⊎ ((role : String) × ((get_member_role s workspace_id user_id ws.owner_id w1).0 ≡ ok role)
              × Good role))

  found-guarded :
      {B : Type 0} (X : Type 0) (found : Option Workspace) (f : Workspace → Act W B) (w1 : W)
      → P w1
      → ((ws : Workspace) → found ≡ some ws → Refused P (f ws w1) ⊎ X)
      → Refused P ((require_workspace s found >>= f) w1) ⊎ X
  unfolding require_workspace
  found-guarded X none f w1 h next = inl (tt, h)
  found-guarded X (some ws) f w1 h next = next ws refl

  -- A test of the role that changes nothing and refuses all but the good ones.
  abbrev Decides : (String → Type 0) → (String → Act W (Unit {0})) → Type 0
  Decides Good test =
      (role : String) (w : W) → (IsFail (test role w).0 ⊎ Good role) × ((test role w).1 ≡ w)

  admin_role-Decides : Decides (λ role. role ≡ "ADMIN") (admin_role s)
  unfolding admin_role
  admin_role-Decides role w = elim (Bool-cases (role == "ADMIN")) [
    | inl admin ↦ rw admin (inr ((eq_iff role "ADMIN").0 admin), refl)
    | inr less ↦ rw less (inl tt, refl)
  ]

  member_role-Decides : Decides (λ role. role ≢ "") (member_role s)
  unfolding member_role
  member_role-Decides role w = elim (Bool-cases (role == "")) [
    | inl nobody ↦ rw nobody (inl tt, refl)
    | inr member ↦ rw member (inr (λ e. ground (arith, eq_iff role "")), refl)
  ]

  tested :
      {B : Type 0} (X : Type 0) (r : Result (Unit {0}) × W) (w : W) (k : Act W B)
      → P w
      → r.1 ≡ w
      → (IsFail r.0 ⊎ X)
      → Refused P (after r (λ _. k)) ⊎ X
  tested X (ok a, v) w k h same (inl x) = elim x [ ]
  tested X (ok a, v) w k h same (inr x) = inr x
  tested X (fail e, v) w k h same d = inl (tt, subst P (sym same) h)

  module _ {B : Type 0} (message : String) (Good : String → Type 0)
      (test : String → Act W (Unit {0})) (decides : Decides Good test) (k : Act W B) (w : W)
      (h : P w) where
    role-guarded :
        (ws : Workspace) (w1 : W)
        → P w1
        → get_workspace s workspace_id w ≡ (ok (some ws), w1)
        → Refused P (
            (relabel (stranger message) (get_member_role s workspace_id user_id ws.owner_id)
                >>= λ role. test role >>= λ _. k)
              w1)
          ⊎ Entitled Good w
    role-guarded ws w1 k1 e =
        let m = get_member_role s workspace_id user_id ws.owner_id in
        Refused-bind (Entitled Good w) (relabel (stranger message) m) _ w1
          (λ v kept.
            relabelled-Keeps P (stranger message) (m v) (get_member_role-Keeps ws.owner_id v kept))
          k1
          λ role w2 e2 k2.
            tested (Entitled Good w) (test role w2) w2 k k2 (decides role w2).1
              (elim (decides role w2).0 [
                | inl bad ↦ inl bad
                | inr good ↦ inr (
                  ws,
                  w1,
                  e,
                  inr (role, relabelled-ok (stranger message) (m w1) role w2 e2, good),
                )
              ])

    -- What follows the check is reached only by who is entitled.
    pub require_role-guarded :
        Refused P (
          (get_workspace s workspace_id >>= λ found. require_workspace s found >>= λ ws.
          require_role s message test workspace_id user_id ws >>= λ _. k)
            w)
        ⊎ Entitled Good w
    unfolding require_role
    require_role-guarded =
        Refused-bind (Entitled Good w) (get_workspace s workspace_id) _ w get_workspace-Keeps h
          λ found w1 e k1. found-guarded (Entitled Good w) found _ w1 k1 λ ws same.
            let e' = subst (λ o. get_workspace s workspace_id w ≡ (ok o, w1)) same e in
            if_cases (λ (c : Act W (Unit {0})). Refused P ((c >>= λ _. k) w1) ⊎ Entitled Good w)
              (ws.owner_id == user_id) _ _
              (λ mine. inr (ws, w1, e', inl ((eq_iff ws.owner_id user_id).0 mine)))
              (λ foreign.
                subst (λ r. Refused P r ⊎ Entitled Good w)
                  (sym (
                    after_assoc
                      (relabel (stranger message)
                        (get_member_role s workspace_id user_id ws.owner_id) w1)
                      test (λ _. k)))
                  (role-guarded ws w1 k1 e'))

  -- For every predicate of the world that the reads of the check keep, with the cache entries that
  -- they fill, CreateProject either returns an error and keeps the predicate, or the user owns the
  -- workspace that was read or has the role ADMIN in it.
  pub create_project-guarded :
      (input : ProjectCreateInput) (w : W)
      → P w
      → Refused P (create_project s workspace_id input user_id w)
        ⊎ Entitled (λ role. role ≡ "ADMIN") w
  unfolding create_project require_admin
  create_project-guarded input w h =
      require_role-guarded "You are not a member of this workspace" (λ role. role ≡ "ADMIN")
        (admin_role s) admin_role-Decides (add_project s workspace_id input user_id) w h

  -- For every predicate of the world that the reads of the check keep, with the cache entries that
  -- they fill, GetProjectsByWorkspace either returns an error and keeps the predicate, or the user
  -- owns the workspace that was read or has a role in it that is not empty.
  pub get_projects_by_workspace-guarded :
      (limit : ℕ) (cursor : String) (w : W)
      → P w
      → Refused P (get_projects_by_workspace s workspace_id user_id limit cursor w)
        ⊎ Entitled (λ role. role ≢ "") w
  unfolding get_projects_by_workspace require_member
  get_projects_by_workspace-guarded limit cursor w h =
      require_role-guarded "You do not have access to this workspace" (λ role. role ≢ "")
        (member_role s) member_role-Decides (list_projects s workspace_id limit cursor) w h
