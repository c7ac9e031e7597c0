-- ===== src/Project/Cache/Lists.antt =====
-- A cached list of project ids is read back page by page, unless it is empty.
use distributed_workflow_sys.Prelude.{
  ℕ, ◌≡◌, refl, sym, ap, ◌∙◌, String, Option, none, some, List, [], ◌∷◌, eq_refl,
}
use distributed_workflow_sys.Prelude.Act.{ok}
use distributed_workflow_sys.Paging.Order.{self, page_ids, paginate_lem}
use distributed_workflow_sys.Paging.{sort_desc}
use distributed_workflow_sys.Redis.{Redis}
use distributed_workflow_sys.Redis.Laws.{Keeping, Distinct, add_members-nil}
use distributed_workflow_sys.Project.Cache.{
  project_list_key, stored_ids, get_project_ids, set_project_ids,
}

-- What is read of a list: a page of it, or nothing if it is empty.
abbrev pub page_or_miss : String → ℕ → List String → Option (List String)
page_or_miss cursor limit [] = none
page_or_miss cursor limit (id ∷ ids) = some (page_ids cursor limit (id ∷ ids))

module _ {W : Type 0} (rdb : Redis W) (set : W → String → List String)
    (hash : W → String → List (String × String)) (keeping : Keeping rdb set hash)
    (workspace_id : String) where
  -- Reading shows the page of the set's members.
  get_project_ids-members :
      (ids : List String) (limit : ℕ) (cursor : String) (w : W)
      → set w (project_list_key workspace_id) ≡ ids
      → hash w (project_list_key workspace_id) ≡ []
      → get_project_ids rdb workspace_id limit cursor w ≡ (ok (page_or_miss cursor limit ids), w)
  unfolding get_project_ids
  get_project_ids-members [] limit cursor w h g =
      rw (keeping.no_set w (project_list_key workspace_id) h g) refl
  get_project_ids-members (id ∷ ids) limit cursor w h g =
      rw
        (
          keeping.a_set w (project_list_key workspace_id) id ids h,
          keeping.range w (project_list_key workspace_id) id ids cursor limit h,
        )
        (ap (λ page. (ok (some page), w))
          (sym (paginate_lem self cursor limit (sort_desc self (id ∷ ids)))))

  -- In a Redis that keeps to its documentation, the distinct ids that have been cached are read
  -- back page by page: those behind the cursor, by descending id. But an empty list is not cached:
  -- it is read back as missing.
  pub set_project_ids-get :
      (ids : List String) (limit : ℕ) (cursor : String) (w w' : W)
      → Distinct ids
      → set_project_ids rdb workspace_id ids w ≡ (ok tt, w')
      → get_project_ids rdb workspace_id limit cursor w' ≡ (ok (page_or_miss cursor limit ids), w')
  unfolding set_project_ids
  set_project_ids-get [] limit cursor w w' d e =
      let key = project_list_key workspace_id in
      get_project_ids-members [] limit cursor w'
        (keeping.sets w w' (stored_ids key []) key e ∙ rw (stored_ids, eq_refl key) refl)
        (keeping.hashes w w' (stored_ids key []) key e ∙ rw (stored_ids, eq_refl key) refl)
  set_project_ids-get (id ∷ ids) limit cursor w w' d e =
      let key = project_list_key workspace_id in
      get_project_ids-members (id ∷ ids) limit cursor w'
        (keeping.sets w w' (stored_ids key (id ∷ ids)) key e
          ∙ rw (stored_ids, eq_refl key) (add_members-nil (id ∷ ids) d))
        (keeping.hashes w w' (stored_ids key (id ∷ ids)) key e ∙ rw (stored_ids, eq_refl key) refl)
