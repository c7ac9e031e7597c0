-- ===== src/Workspace/Lists.antt =====
-- services/workspace-service/internal/workspace/service.go: GetWorkspacesByOwner and
-- GetWorkspacesByMember, two cached lists that differ in their calls.
pub mod Page
use distributed_workflow_sys.Prelude.{ℕ, String, List}
use distributed_workflow_sys.Prelude.Act.{Act}
use distributed_workflow_sys.Domain.Workspace.{Workspace}
use distributed_workflow_sys.Paging.{sort_desc, paginate}
use distributed_workflow_sys.Paging.Cached.{Source, cached_list}
use distributed_workflow_sys.Workspace.Service.{Service}

abbrev pub workspace_id : Workspace → String
workspace_id ws = ws.id

unfoldable pub sort_workspaces_desc : List Workspace → List Workspace
sort_workspaces_desc workspaces = sort_desc workspace_id workspaces

unfoldable pub paginate_workspaces : List Workspace → String → ℕ → List Workspace
paginate_workspaces workspaces cursor limit = paginate workspace_id cursor limit workspaces

-- The page of all rows, which are sorted first.
unfoldable pub all_workspaces_page : List Workspace → String → ℕ → List Workspace
unfolding sort_workspaces_desc paginate_workspaces
all_workspaces_page workspaces cursor limit =
    paginate_workspaces (sort_workspaces_desc workspaces) cursor limit

module _ {W : Type 0} (s : Service W) where
  abbrev pub owned : String → Source W Workspace
  owned owner_id = record {
    key = workspace_id;
    cached_ids = s.cache.get_owned_workspace_ids owner_id;
    load = s.ws_repo.get_by_owner_id "" owner_id 10000 "";
    page = all_workspaces_page;
    store_ids = s.cache.set_owned_workspace_ids owner_id;
    set_meta = s.cache.set_workspace_meta;
    get_metas = s.cache.get_workspace_metas;
    find = λ id. s.ws_repo.find_by_id id id;
    sort = sort_workspaces_desc;
  }

  abbrev pub joined : String → Source W Workspace
  joined user_id = record {
    key = workspace_id;
    cached_ids = s.cache.get_joined_workspace_ids user_id;
    load = s.ws_repo.get_by_member_id "" user_id 10000 "";
    page = all_workspaces_page;
    store_ids = s.cache.set_joined_workspace_ids user_id;
    set_meta = s.cache.set_workspace_meta;
    get_metas = s.cache.get_workspace_metas;
    find = λ id. s.ws_repo.find_by_id id id;
    sort = sort_workspaces_desc;
  }

  unfoldable pub get_workspaces_by_owner : String → ℕ → String → Act W (List Workspace)
  unfolding cached_list
  get_workspaces_by_owner owner_id limit cursor = cached_list (owned owner_id) limit cursor

  unfoldable pub get_workspaces_by_member : String → ℕ → String → Act W (List Workspace)
  unfolding cached_list
  get_workspaces_by_member user_id limit cursor = cached_list (joined user_id) limit cursor
