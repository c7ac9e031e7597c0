-- ===== src/Task/Quiet.antt =====
-- The calls of internal/task/service.go that only look: getTaskByID and checkAccess read the tables
-- and the cache and fill the cache.
use distributed_workflow_sys.Prelude.{String, Option, none, some, List, [], ◌∷◌, ◌==◌, any}
use distributed_workflow_sys.Prelude.Act.{app, no_rows, other, Result, ok, fail, pure, raise}
use distributed_workflow_sys.Prelude.Keeps.{Keeps, Keeps-bind, Keeps-if}
use distributed_workflow_sys.Domain.Task.{Task}
use distributed_workflow_sys.Domain.Workspace.{Workspace}
use distributed_workflow_sys.Task.Service.{
  Service, not_a_member, not_enough, found_workspace, fetch_workspace, workspace_or_fetch,
  role_or_refuse, fetch_role, role_or_fetch, check_role, check_member, check_access, remember_task,
  fetch_task, task_or_fetch, get_task_by_id,
}

-- `P` is kept by the reads and by the cache writes that follow them.
pub record Quiet {W : Type 0} (s : Service W) (P : W → Type 0) : Type 0 where
  pub find_task :
      (workspace_id task_id : String) → Keeps P (s.task_repo.find_by_id workspace_id task_id)
  pub get_task_metas : (ids : List String) → Keeps P (s.task_cache.get_task_metas ids)
  pub set_task_meta : (t : Task) → Keeps P (s.task_cache.set_task_meta t)
  pub find_workspace : (a b : String) → Keeps P (s.ws_repo.find_by_id a b)
  pub find_role : (a b : String) → Keeps P (s.ws_repo.get_member_role a b)
  pub get_workspace_meta : (id : String) → Keeps P (s.ws_cache.get_workspace_meta id)
  pub set_workspace_meta : (ws : Workspace) → Keeps P (s.ws_cache.set_workspace_meta ws)
  pub get_role : (a b : String) → Keeps P (s.ws_cache.get_member_role a b)
  pub set_role : (a b role : String) → Keeps P (s.ws_cache.set_member_role a b role)

module _ {W : Type 0} {s : Service W} {P : W → Type 0} (q : Quiet s P) where
  found_workspace-Keeps : (found : Option Workspace) → Keeps P (found_workspace s found)
  unfolding found_workspace
  found_workspace-Keeps none w h = h
  found_workspace-Keeps (some ws) w h = q.set_workspace_meta ws w h

  fetch_workspace-Keeps : (workspace_id : String) → Keeps P (fetch_workspace s workspace_id)
  unfolding fetch_workspace
  fetch_workspace-Keeps workspace_id =
      Keeps-bind _ _ (q.find_workspace workspace_id workspace_id) found_workspace-Keeps

  workspace_or_fetch-Keeps :
      (workspace_id : String) (cached : Result (Option Workspace))
      → Keeps P (workspace_or_fetch s workspace_id cached)
  unfolding workspace_or_fetch
  workspace_or_fetch-Keeps workspace_id (ok (some ws)) w h = h
  workspace_or_fetch-Keeps workspace_id (ok none) w h = fetch_workspace-Keeps workspace_id w h
  workspace_or_fetch-Keeps workspace_id (fail e) w h = fetch_workspace-Keeps workspace_id w h

  role_or_refuse-Keeps :
      (workspace_id user_id : String) (r : Result String)
      → Keeps P (role_or_refuse s workspace_id user_id r)
  unfolding role_or_refuse
  role_or_refuse-Keeps a b (ok role) w h = q.set_role a b role w h
  role_or_refuse-Keeps a b (fail no_rows) w h = q.set_role a b "" w h
  role_or_refuse-Keeps a b (fail (app e)) w h = h
  role_or_refuse-Keeps a b (fail (other e)) w h = h

  fetch_role-Keeps : (a b : String) → Keeps P (fetch_role s a b)
  unfolding fetch_role
  fetch_role-Keeps a b w h = role_or_refuse-Keeps a b _ _ (q.find_role a b w h)

  role_or_fetch-Keeps :
      (a b : String) (r : Result (Option String)) → Keeps P (role_or_fetch s a b r)
  unfolding role_or_fetch
  role_or_fetch-Keeps a b (ok (some role)) =
      Keeps-if (role == "") (raise not_a_member) (pure role) (λ w h. h) (λ w h. h)
  role_or_fetch-Keeps a b (ok none) = fetch_role-Keeps a b
  role_or_fetch-Keeps a b (fail e) = fetch_role-Keeps a b

  check_role-Keeps : (allowed : List String) (role : String) → Keeps P (check_role s allowed role)
  unfolding check_role
  check_role-Keeps [] role = λ w h. h
  check_role-Keeps (a ∷ allowed) role =
      Keeps-if (any (λ b. b == role) (a ∷ allowed)) (pure tt) (raise not_enough) (λ w h. h)
        (λ w h. h)

  check_member-Keeps : (a b : String) (allowed : List String) → Keeps P (check_member s a b allowed)
  unfolding check_member
  check_member-Keeps a b allowed w h =
      let (r, w1) = s.ws_cache.get_member_role a b w in
      Keeps-bind (role_or_fetch s a b r) (check_role s allowed) (role_or_fetch-Keeps a b r)
        (check_role-Keeps allowed) w1 (q.get_role a b w h)

  pub check_access-Keeps :
      (workspace_id user_id : String) (allowed : List String)
      → Keeps P (check_access s workspace_id user_id allowed)
  unfolding check_access
  check_access-Keeps workspace_id user_id allowed w h =
      let (r, w1) = s.ws_cache.get_workspace_meta workspace_id w in
      Keeps-bind (workspace_or_fetch s workspace_id r) _ (workspace_or_fetch-Keeps workspace_id r)
        (λ ws.
          Keeps-if (ws.owner_id == user_id) (pure tt) (check_member s workspace_id user_id allowed)
            (λ w h. h) (check_member-Keeps workspace_id user_id allowed))
        w1 (q.get_workspace_meta workspace_id w h)

  remember_task-Keeps : (t : Option Task) → Keeps P (remember_task s t)
  unfolding remember_task
  remember_task-Keeps none w h = h
  remember_task-Keeps (some t) w h = q.set_task_meta t w h

  fetch_task-Keeps : (workspace_id task_id : String) → Keeps P (fetch_task s workspace_id task_id)
  unfolding fetch_task
  fetch_task-Keeps workspace_id task_id =
      Keeps-bind _ _ (q.find_task workspace_id task_id) remember_task-Keeps

  task_or_fetch-Keeps :
      (a b : String) (r : Result (List Task × List String)) → Keeps P (task_or_fetch s a b r)
  unfolding task_or_fetch
  task_or_fetch-Keeps a b (ok (t ∷ tasks, [])) =
      Keeps-if (t.workspace_id == a) (pure (some t)) (fetch_task s a b) (λ w h. h)
        (fetch_task-Keeps a b)
  task_or_fetch-Keeps a b (ok ([], missing)) = fetch_task-Keeps a b
  task_or_fetch-Keeps a b (ok (t ∷ tasks, m ∷ missing)) = fetch_task-Keeps a b
  task_or_fetch-Keeps a b (fail e) = fetch_task-Keeps a b

  pub get_task_by_id-Keeps : (a b : String) → Keeps P (get_task_by_id s a b)
  unfolding get_task_by_id
  get_task_by_id-Keeps a b w h = task_or_fetch-Keeps a b _ _ (q.get_task_metas (b ∷ []) w h)
