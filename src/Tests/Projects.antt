-- ===== src/Tests/Projects.antt =====
-- The theorems on the lists of projects and workspaces, at services whose cache keeps what is
-- stored in it.
use distributed_workflow_sys.Prelude.{
  ◌≡◌, ◌≢◌, refl, String, some, Bool, true, false, ◌⊎◌, List, [], ◌∷◌, map, ◌==◌,
}
use distributed_workflow_sys.Prelude.Act.{Act, ok, ◌>>◌}
use distributed_workflow_sys.Prelude.Keeps.{Keeps-if, Refused}
use distributed_workflow_sys.Domain.Project.{Project, ProjectCache, ProjectCreateInput}
use distributed_workflow_sys.Domain.Workspace.{Workspace}
use distributed_workflow_sys.Paging.{sort_desc, paginate}
use distributed_workflow_sys.Paging.Order.{page_ids}
use distributed_workflow_sys.Paging.Walk.{read_all}
use distributed_workflow_sys.Paging.Cached.Page.{Agrees}
use distributed_workflow_sys.Project.Service.{
  Service, project_id, paginate_projects_in_go, sort_projects_desc, get_workspace, require_member,
  get_member_role, member_role, projects_of, create_project, get_projects_by_workspace,
}
use distributed_workflow_sys.Project.Service.Guarded.{
  Quiet, Entitled, create_project-guarded, get_projects_by_workspace-guarded,
}
use distributed_workflow_sys.Project.Service.Page.{read_projects_complete}
use distributed_workflow_sys.Workspace.Lists.{
  owned, joined, workspace_id, all_workspaces_page, sort_workspaces_desc, paginate_workspaces,
  get_workspaces_by_owner, get_workspaces_by_member,
}
use distributed_workflow_sys.Workspace.Lists.Page.{workspaces-page}
use distributed_workflow_sys.Workspace.Service.{Service as Workspaces}
use distributed_workflow_sys.Tests.TaskService.{
  workspace, done, down, ws_repo, ws_cache, service_with,
}
use distributed_workflow_sys.Tests.Caches.{project}
use distributed_workflow_sys.Tests.Shelf.{
  Shelf, get_shelf_ids, set_shelf_ids, set_row, get_rows, Right, page_of-IdsOrMiss, get_rows-Split,
}

abbrev ids : List String
ids = "p3" ∷ "p2" ∷ "p1" ∷ []

-- A service over a cache, with the projects of the table.
abbrev service_over : {W : Type 0} → Act W (Unit {0}) → ProjectCache W → Service W
service_over created cache = record {
  project_repo = record {
    create = λ ws p. created >> done p;
    get_by_id = λ id. done (some (project id));
    get_by_workspace_id = λ ws n c. done (map project (page_ids c n ids));
  };
  ws_repo = ws_repo;
  cache = cache;
  ws_cache = ws_cache;
  new_v7 = done "p4";
}

abbrev shelf_cache : ProjectCache (Shelf Project)
shelf_cache = record {
  add_project_id = λ ws id. down;
  set_project_meta = set_row;
  get_project_metas = get_rows project_id;
  get_project_ids = λ ws limit cursor. get_shelf_ids limit cursor;
  set_project_ids = λ ws some_ids. set_shelf_ids some_ids;
  invalidate_projects = λ ws. down;
}

abbrev shelf_service : Service (Shelf Project)
shelf_service = service_over (done tt) shelf_cache

abbrev RightProjects : Shelf Project → Type 0
RightProjects w = Right project_id project ids w

projects-Agrees : Agrees (projects_of shelf_service "ws") RightProjects project ids
unfolding paginate_projects_in_go sort_projects_desc sort_desc paginate
projects-Agrees = record {
  named = λ id. refl;
  load = λ w h. (refl, h);
  cached = λ limit cursor w h. (page_of-IdsOrMiss project_id project ids limit cursor w.ids h.0, h);
  metas = λ some_ids w h. (get_rows-Split project_id project ids some_ids w h, h);
  found = (λ w h. (refl, h), (λ w h. (refl, h), (λ w h. (refl, h), tt)));
  set_meta = λ id w h. (h.0, (refl, h.1));
  store_ids = λ w h. (refl, h.1);
}

-- The ids are cached, and the metadata of one project.
abbrev partly_cached : Shelf Project
partly_cached = record { ids = some ids; rows = project "p2" ∷ [] }

read_projects_complete_example :
    (read_all (get_projects_by_workspace shelf_service "ws" "bob" 2) 4 "" partly_cached).0
    ≡ ok (project "p3" ∷ project "p2" ∷ project "p1" ∷ [])
unfolding sort_desc paginate get_workspace require_member get_member_role member_role
read_projects_complete_example =
    read_projects_complete shelf_service RightProjects project ids "ws" "bob" workspace
      projects-Agrees (λ w h. (refl, h)) (λ w h. (refl, h)) 1 partly_cached
      ((refl, (refl, tt)), refl, ((refl, tt), refl, (tt, refl, tt))) (refl, (refl, tt))

-- A service whose world says whether nothing has been created, with a cache that is down.
abbrev project_service : Service Bool
project_service =
    service_over (λ w. (ok tt, false))
      (record {
        add_project_id = λ ws id. down;
        set_project_meta = λ p. done tt;
        get_project_metas = λ some_ids. down;
        get_project_ids = λ ws limit cursor. down;
        set_project_ids = λ ws some_ids. done tt;
        invalidate_projects = λ ws. down;
      })

-- Nothing has been created.
abbrev Old : Bool → Type 0
Old w = w ≡ true

quiet : Quiet project_service Old
quiet = record {
  get_workspace_meta = λ id w h. h;
  find_by_id = λ id w h. h;
  set_workspace_meta = λ ws w h. h;
  cached_member_role = λ id user w h. h;
  stored_member_role = λ id user.
      Keeps-if (user == "anna") (done "ADMIN") _ (λ w h. h)
        (Keeps-if (user == "bob") (done "MEMBER") _ (λ w h. h) (λ w h. h));
  set_member_role = λ id user role w h. h;
}

abbrev input : ProjectCreateInput
input = record { name = "Site"; description = "" }

create_project-guarded_example :
    Refused Old (create_project project_service "ws" input "bob" true)
    ⊎ Entitled project_service Old quiet "ws" "bob" (λ role. role ≡ "ADMIN") true
create_project-guarded_example =
    create_project-guarded project_service Old quiet "ws" "bob" input true refl

get_projects_by_workspace-guarded_example :
    Refused Old (get_projects_by_workspace project_service "ws" "eve" 2 "" true)
    ⊎ Entitled project_service Old quiet "ws" "eve" (λ role. role ≢ "") true
get_projects_by_workspace-guarded_example =
    get_projects_by_workspace-guarded project_service Old quiet "ws" "eve" 2 "" true refl

abbrev named_workspace : String → Workspace
named_workspace id = record workspace { id = id }

abbrev workspace_service : Workspaces (Shelf Workspace)
workspace_service = record {
  ws_repo = record ws_repo {
    find_by_id = λ a id. done (some (named_workspace id));
    get_by_owner_id = λ a id n c. done (map named_workspace (page_ids c n ids));
    get_by_member_id = λ a id n c. done (map named_workspace (page_ids c n ("q" ∷ [])));
  };
  user_repo = (service_with ws_cache (λ m. down)).user_repo;
  execute_workflow = λ id email role token. down;
  notification_writer = record { write_messages = λ m. down };
  frontend_url = "http://localhost";
  cache = record ws_cache {
    set_workspace_meta = set_row;
    get_workspace_metas = get_rows workspace_id;
    get_owned_workspace_ids = λ user limit cursor. get_shelf_ids limit cursor;
    set_owned_workspace_ids = λ user some_ids. set_shelf_ids some_ids;
  };
  runtime = (service_with ws_cache (λ m. down)).runtime;
  sort_by_joined = λ ms. ms;
}

-- The cache holds the ids of the workspaces owned.
abbrev RightWorkspaces : Shelf Workspace → Type 0
RightWorkspaces w = Right workspace_id named_workspace ids w

owned-Agrees : Agrees (owned workspace_service "owner") RightWorkspaces named_workspace ids
unfolding all_workspaces_page sort_workspaces_desc paginate_workspaces sort_desc paginate
owned-Agrees = record {
  named = λ id. refl;
  load = λ w h. (refl, h);
  cached = λ limit cursor w h.
      (page_of-IdsOrMiss workspace_id named_workspace ids limit cursor w.ids h.0, h);
  metas = λ some_ids w h. (get_rows-Split workspace_id named_workspace ids some_ids w h, h);
  found = (λ w h. (refl, h), (λ w h. (refl, h), (λ w h. (refl, h), tt)));
  set_meta = λ id w h. (h.0, (refl, h.1));
  store_ids = λ w h. (refl, h.1);
}

joined-Agrees : Agrees (joined workspace_service "owner") RightWorkspaces named_workspace ("q" ∷ [])
unfolding all_workspaces_page sort_workspaces_desc paginate_workspaces sort_desc paginate
joined-Agrees = record {
  named = λ id. refl;
  load = λ w h. (refl, h);
  cached = λ limit cursor w h. (tt, h);
  metas = λ some_ids w h. (get_rows-Split workspace_id named_workspace ids some_ids w h, h);
  found = (λ w h. (refl, h), tt);
  set_meta = λ id w h. (h.0, (refl, h.1));
  store_ids = λ w h. h;
}

abbrev shelf : Shelf Workspace
shelf = record { ids = some ids; rows = named_workspace "p2" ∷ [] }

workspaces-page_example :
    (let answer = get_workspaces_by_owner workspace_service "owner" 2 "" shelf in
      (answer.0 ≡ ok (named_workspace "p3" ∷ named_workspace "p2" ∷ [])) × RightWorkspaces answer.1)
    × (let answer = get_workspaces_by_member workspace_service "owner" 2 "" shelf in
        (answer.0 ≡ ok (named_workspace "q" ∷ [])) × RightWorkspaces answer.1)
unfolding sort_desc paginate
workspaces-page_example =
    workspaces-page workspace_service RightWorkspaces named_workspace "owner" ids ("q" ∷ [])
      owned-Agrees joined-Agrees 2 "" shelf (refl, (refl, tt))
