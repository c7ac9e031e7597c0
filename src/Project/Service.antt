-- ===== src/Project/Service.antt =====
-- services/workspace-service/internal/project/service.go.
pub mod Guarded
pub mod Page
use distributed_workflow_sys.Prelude.{
  ℕ, String, Option, none, some, List, [], ◌∷◌, ◌++◌, map, ◌==◌, if◌then◌else◌, joined,
}
use distributed_workflow_sys.Prelude.Act.{
  Act, Error, app, no_rows, other, Result, ok, fail, ◌>>=◌, ◌>>◌, pure, raise, attempt, ignore,
  relabel, each, value_or, error_text,
}
use distributed_workflow_sys.Apperror.{not_found, forbidden, internal_server}
use distributed_workflow_sys.Domain.Workspace.{Workspace, WorkspaceRepository, WorkspaceCache}
use distributed_workflow_sys.Domain.Project.{
  Project, ProjectCreateInput, ProjectRepository, ProjectCache,
}
use distributed_workflow_sys.Paging.Cached.{Source, cached_list}
use distributed_workflow_sys.Paging.{sort_desc, paginate, next_cursor}

-- `new_v7` is uuid.NewV7.
pub record Service (W : Type 0) : Type 0 where
  pub project_repo : ProjectRepository W
  pub ws_repo : WorkspaceRepository W
  pub cache : ProjectCache W
  pub ws_cache : WorkspaceCache W
  pub new_v7 : Act W String

abbrev pub project_id : Project → String
project_id p = p.id

unfoldable pub sort_projects_desc : List Project → List Project
sort_projects_desc projects = sort_desc project_id projects

unfoldable pub paginate_projects_in_go : List Project → String → ℕ → List Project
paginate_projects_in_go projects cursor limit = paginate project_id cursor limit projects

-- A user without a row among the members is refused in words of the method's own.
unfoldable pub stranger : String → Error → Error
stranger message no_rows = forbidden message
stranger message (app e) = app e
stranger message (other e) = other e

unfoldable id_failure : Error → Error
id_failure err = internal_server (joined ("failed to generate project ID: " ∷ error_text err ∷ []))

module _ {W : Type 0} (s : Service W) where
  unfoldable pub remember_workspace : Option Workspace → Act W (Option Workspace)
  remember_workspace none = pure none
  remember_workspace (some ws) = do ignore (s.ws_cache.set_workspace_meta ws); pure (some ws)

  unfoldable pub workspace_or_fetch : String → Option Workspace → Act W (Option Workspace)
  unfolding remember_workspace
  workspace_or_fetch workspace_id (some ws) = pure (some ws)
  workspace_or_fetch workspace_id none =
      s.ws_repo.find_by_id workspace_id workspace_id >>= remember_workspace

  unfoldable pub get_workspace : String → Act W (Option Workspace)
  unfolding workspace_or_fetch
  get_workspace workspace_id = do
    cached ← attempt (s.ws_cache.get_workspace_meta workspace_id)
    workspace_or_fetch workspace_id (value_or none cached)

  unfoldable pub role_or_fetch : String → String → Option String → Act W String
  role_or_fetch workspace_id user_id (some role) = pure role
  role_or_fetch workspace_id user_id none = do
    role ← s.ws_repo.get_member_role workspace_id user_id
    ignore (s.ws_cache.set_member_role workspace_id user_id role)
    pure role

  unfoldable pub cached_role : String → String → Act W String
  unfolding role_or_fetch
  cached_role workspace_id user_id = do
    cached ← attempt (s.ws_cache.get_member_role workspace_id user_id)
    role_or_fetch workspace_id user_id (value_or none cached)

  unfoldable pub get_member_role : String → String → String → Act W String
  unfolding cached_role
  get_member_role workspace_id user_id owner_id =
      if owner_id == user_id then pure "OWNER" else cached_role workspace_id user_id

  unfoldable pub require_workspace : Option Workspace → Act W Workspace
  require_workspace none = raise (not_found "Workspace not found")
  require_workspace (some ws) = pure ws

  -- Who may create a project.
  unfoldable pub admin_role : String → Act W (Unit {0})
  admin_role role =
      if role == "ADMIN"
      then pure tt
      else raise (forbidden "Only workspace owners and admins can create projects")

  -- The owner may; of others the role decides.
  unfoldable pub require_role :
      String → (String → Act W (Unit {0})) → String → String → Workspace → Act W (Unit {0})
  require_role message test workspace_id user_id ws =
      if ws.owner_id == user_id
      then pure tt
      else (relabel (stranger message) (get_member_role workspace_id user_id ws.owner_id) >>= test)

  unfoldable pub require_admin : String → String → Workspace → Act W (Unit {0})
  unfolding require_role
  require_admin = require_role "You are not a member of this workspace" admin_role

  unfoldable pub add_project : String → ProjectCreateInput → String → Act W Project
  unfolding id_failure
  add_project workspace_id input user_id = do
    proj_id ← relabel id_failure s.new_v7
    p ← s.project_repo.create workspace_id (record {
      id = proj_id;
      workspace_id = workspace_id;
      name = input.name;
      description = input.description;
      status = "ACTIVE";
      created_by = user_id;
      created_at = 0;
    })
    ignore (s.cache.set_project_meta p)
    ignore (s.cache.add_project_id workspace_id p.id)
    pure p

  unfoldable pub create_project : String → ProjectCreateInput → String → Act W Project
  unfolding get_workspace require_workspace require_admin add_project
  create_project workspace_id input user_id = do
    found ← get_workspace workspace_id
    ws ← require_workspace found
    require_admin workspace_id user_id ws
    add_project workspace_id input user_id

  -- Who may list the projects.
  unfoldable pub member_role : String → Act W (Unit {0})
  member_role role =
      if role == "" then raise (forbidden "You do not have access to this workspace") else pure tt

  unfoldable pub require_member : String → String → Workspace → Act W (Unit {0})
  unfolding require_role
  require_member = require_role "You do not have access to this workspace" member_role

  -- A bulk of projects is read in the order of the table, which is not changed.
  abbrev pub projects_of : String → Source W Project
  projects_of workspace_id = record {
    key = project_id;
    cached_ids = s.cache.get_project_ids workspace_id;
    load = s.project_repo.get_by_workspace_id workspace_id 1000 "";
    page = paginate_projects_in_go;
    store_ids = s.cache.set_project_ids workspace_id;
    set_meta = s.cache.set_project_meta;
    get_metas = s.cache.get_project_metas;
    find = s.project_repo.get_by_id;
    sort = sort_projects_desc;
  }

  -- For no projects the next cursor is empty, as in the early return of the code.
  unfoldable pub list_projects : String → ℕ → String → Act W (List Project × String)
  unfolding cached_list next_cursor
  list_projects workspace_id limit cursor = do
    projects ← cached_list (projects_of workspace_id) limit cursor
    pure (projects, next_cursor project_id limit projects)

  unfoldable pub get_projects_by_workspace :
      String → String → ℕ → String → Act W (List Project × String)
  unfolding get_workspace require_workspace require_member list_projects
  get_projects_by_workspace workspace_id user_id limit cursor = do
    found ← get_workspace workspace_id
    ws ← require_workspace found
    require_member workspace_id user_id ws
    list_projects workspace_id limit cursor
