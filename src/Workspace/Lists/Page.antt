-- ===== src/Workspace/Lists/Page.antt =====
-- The pages of a user's workspaces.
use distributed_workflow_sys.Prelude.{ℕ, ◌≡◌, refl, String, List, map}
use distributed_workflow_sys.Prelude.Act.{ok}
use distributed_workflow_sys.Domain.Workspace.{Workspace}
use distributed_workflow_sys.Paging.Order.{page_ids}
use distributed_workflow_sys.Paging.Cached.Page.{Lists, Agrees, cached_list-Gives}
use distributed_workflow_sys.Workspace.Service.{Service}
use distributed_workflow_sys.Workspace.Lists.{
  all_workspaces_page, sort_workspaces_desc, paginate_workspaces, owned, joined,
  get_workspaces_by_owner, get_workspaces_by_member,
}

-- The ids that GetByOwnerID and GetByMemberID with the limit 10000 give of those in the table.
abbrev pub latest : List String → List String
latest table_ids = page_ids "" 10000 table_ids

module _ {W : Type 0} (s : Service W) (row : String → Workspace) (user_id : String)
    (ids : List String) where
  owned-Lists : Lists (owned s user_id) row ids
  unfolding all_workspaces_page sort_workspaces_desc paginate_workspaces
  owned-Lists = record { paged = λ limit cursor. refl; sorts = λ rows. refl }

  joined-Lists : Lists (joined s user_id) row ids
  unfolding all_workspaces_page sort_workspaces_desc paginate_workspaces
  joined-Lists = record { paged = λ limit cursor. refl; sorts = λ rows. refl }

module _ {W : Type 0} (s : Service W) (I : W → Type 0) (row : String → Workspace) (user_id : String)
    (owned_ids joined_ids : List String) (owner : Agrees (owned s user_id) I row (latest owned_ids))
    (member : Agrees (joined s user_id) I row (latest joined_ids)) where
  -- Where the bulk reads give the latest ten thousand workspaces of the table, and the cache misses
  -- or agrees with these, GetWorkspacesByOwner and GetWorkspacesByMember give, however much is
  -- cached, the page of these workspaces by descending id behind the cursor, and leave cache and
  -- table in agreement.
  pub workspaces-page :
      (limit : ℕ) (cursor : String) (w : W)
      → I w
      → (let answer = get_workspaces_by_owner s user_id limit cursor w in
          (answer.0 ≡ ok (map row (page_ids cursor limit (latest owned_ids)))) × I answer.1)
        × (let answer = get_workspaces_by_member s user_id limit cursor w in
            (answer.0 ≡ ok (map row (page_ids cursor limit (latest joined_ids)))) × I answer.1)
  unfolding get_workspaces_by_owner get_workspaces_by_member
  workspaces-page limit cursor w h = (
    cached_list-Gives (owned s user_id) I row (latest owned_ids)
        (owned-Lists s row user_id (latest owned_ids)) owner limit cursor w h,
    cached_list-Gives (joined s user_id) I row (latest joined_ids)
        (joined-Lists s row user_id (latest joined_ids)) member limit cursor w h,
  )
