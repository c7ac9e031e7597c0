-- ===== src/Project/Service/Page.antt =====
-- Reading the projects of a workspace page by page.
use distributed_workflow_sys.Prelude.{
  ℕ, suc, ◌≡◌, refl, sym, ap, ◌∙◌, subst, String, some, List, map, length,
}
use distributed_workflow_sys.Prelude.Act.{ok, ◌>>◌, pure}
use distributed_workflow_sys.Prelude.Gives.{Gives, Gives-bind, Gives-then, Gives-pure}
use distributed_workflow_sys.Domain.Workspace.{Workspace}
use distributed_workflow_sys.Domain.Project.{Project}
use distributed_workflow_sys.Paging.Cached.Page.{Lists, Agrees, cached_list-Gives}
use distributed_workflow_sys.Paging.Cached.{cached_list}
use distributed_workflow_sys.Paging.Order.{
  self, page_ids, paginate-map, sort_desc-map, sort_desc-page_ids,
}
use distributed_workflow_sys.Paging.Walk.{read_all, Falling, read_all_complete}
use distributed_workflow_sys.Paging.{sort_desc, paginate, next_cursor}
use distributed_workflow_sys.Project.Service.{
  Service, project_id, paginate_projects_in_go, sort_projects_desc, projects_of, get_workspace,
  require_workspace, require_member, list_projects, get_projects_by_workspace,
}

module _ {W : Type 0} (s : Service W) (I : W → Type 0) (row : String → Project) (ids : List String)
    (workspace_id user_id : String) (ws : Workspace) (sorted : sort_desc self ids ≡ ids)
    (agrees : Agrees (projects_of s workspace_id) I row ids)
    (found : Gives I (some ws) (get_workspace s workspace_id))
    (member : Gives I tt (require_member s workspace_id user_id ws)) where
  -- The rows that are cut are read from the table in their order.
  projects-Lists : Lists (projects_of s workspace_id) row ids
  unfolding paginate_projects_in_go sort_projects_desc
  projects-Lists = record {
    paged = λ limit cursor.
        ap (paginate project_id cursor limit)
          (sym (sort_desc-map project_id row agrees.named ids ∙ ap (map row) sorted));
    sorts = λ rows. refl;
  }

  list_projects-Gives :
      (limit : ℕ) (cursor : String)
      → let page = map row (page_ids cursor limit ids) in
        Gives I
          (page, next_cursor project_id limit page)
          (list_projects s workspace_id limit cursor)
  unfolding list_projects
  list_projects-Gives limit cursor =
      let page = map row (page_ids cursor limit ids) in
      Gives-bind page _ (cached_list (projects_of s workspace_id) limit cursor)
        (λ projects. pure (projects, next_cursor project_id limit projects))
        (cached_list-Gives (projects_of s workspace_id) I row ids projects-Lists agrees limit
          cursor)
        (Gives-pure I (page, next_cursor project_id limit page))

  -- For a member of the workspace GetProjectsByWorkspace gives the page of its projects by
  -- descending id behind the cursor, with the id of the last as next cursor if the page is full,
  -- and leaves cache and table in agreement, if they agreed before, however much was cached.
  pub get_projects_by_workspace-page :
      (limit : ℕ) (cursor : String)
      → let page = map row (page_ids cursor limit ids) in
        Gives I
          (page, next_cursor project_id limit page)
          (get_projects_by_workspace s workspace_id user_id limit cursor)
  unfolding get_projects_by_workspace require_workspace
  get_projects_by_workspace-page limit cursor =
      let page = map row (page_ids cursor limit ids) in
      let answer : List Project × String = (page, next_cursor project_id limit page) in
      Gives-bind (some ws) answer (get_workspace s workspace_id) _ found (
        Gives-bind ws answer (require_workspace s (some ws))
          (λ w.
            require_member s workspace_id user_id w >> list_projects s workspace_id limit cursor)
          (Gives-pure I ws)
          (Gives-then answer (require_member s workspace_id user_id ws)
            (list_projects s workspace_id limit cursor) member (list_projects-Gives limit cursor)))

  read_ids_complete :
      (n : ℕ) (w : W)
      → Falling project_id (map row (sort_desc self ids))
      → I w
      → (read_all
          (get_projects_by_workspace s workspace_id user_id (suc n))
          (suc (length (map row (sort_desc self ids))))
          ""
          w).0
        ≡ ok (map row (sort_desc self ids))
  read_ids_complete n w falling i =
      read_all_complete project_id n (map row (sort_desc self ids)) falling
        (get_projects_by_workspace s workspace_id user_id (suc n)) I
        (λ cursor v j.
          subst
            (λ page.
              ((get_projects_by_workspace s workspace_id user_id (suc n) cursor v).0
                ≡ ok (page, next_cursor project_id (suc n) page))
              × I (get_projects_by_workspace s workspace_id user_id (suc n) cursor v).1)
            (sym (paginate-map project_id row agrees.named cursor (suc n) (sort_desc self ids)))
            (get_projects_by_workspace-page (suc n) cursor v j))
        w i

-- The ids that GetByWorkspaceID(ctx, workspaceID, 1000, "") gives of those in the table.
abbrev pub latest : List String → List String
latest table_ids = page_ids "" 1000 table_ids

module _ {W : Type 0} (s : Service W) (I : W → Type 0) (row : String → Project)
    (table_ids : List String) (workspace_id user_id : String) (ws : Workspace)
    (agrees : Agrees (projects_of s workspace_id) I row (latest table_ids))
    (found : Gives I (some ws) (get_workspace s workspace_id))
    (member : Gives I tt (require_member s workspace_id user_id ws)) where
  -- Where the workspace is found, the user may list its projects, the bulk read gives the latest
  -- thousand projects of the table, and the cache misses or agrees with these, a client that
  -- follows the next cursors of GetProjectsByWorkspace reads each of these projects once, latest
  -- first, in at most as many pages as they are and one more, if none has the empty id, no id
  -- occurs twice and a page has at least one project. A project beyond the latest thousand is not
  -- read.
  pub read_projects_complete :
      (n : ℕ) (w : W)
      → Falling project_id (map row (latest table_ids))
      → I w
      → (read_all
          (get_projects_by_workspace s workspace_id user_id (suc n))
          (suc (length (map row (latest table_ids))))
          ""
          w).0
        ≡ ok (map row (latest table_ids))
  read_projects_complete n w falling i =
      subst
        (λ ids.
          Falling project_id (map row ids)
          → (read_all (get_projects_by_workspace s workspace_id user_id (suc n))
              (suc (length (map row ids))) "" w).0
            ≡ ok (map row ids))
        (sort_desc-page_ids "" 1000 table_ids)
        (λ f.
          read_ids_complete s I row (latest table_ids) workspace_id user_id ws
            (sort_desc-page_ids "" 1000 table_ids) agrees found member n w f i)
        falling
