-- ===== src/Workspace/Cache/Metas.antt =====
-- The metadata of a workspace is read back.
use distributed_workflow_sys.Prelude.{
  ℕ, ◌≡◌, ◌≢◌, refl, sym, ◌∙◌, String, some, List, [], ◌∷◌, eq_refl, Bool-cases, inl, inr, ◌==◌,
}
use distributed_workflow_sys.Prelude.Act.{ok}
use distributed_workflow_sys.Domain.Workspace.{Workspace}
use distributed_workflow_sys.Redis.{Redis, hset, expire}
use distributed_workflow_sys.Redis.Laws.{Keeping, put_all, text_at-put, put-ne-nil}
use distributed_workflow_sys.Task.Cache.{Formats, nano_or_plain}
use distributed_workflow_sys.Task.Service.Listing.{put}
use distributed_workflow_sys.Workspace.Cache.{
  meta_fields, workspace_of, found_meta, workspace_meta_key, set_workspace_meta, get_workspace_meta,
}

found_meta-put :
    (f : Formats) (k v : String) (m : List (String × String))
    → found_meta f (put k v m) ≡ some (workspace_of f (put k v m))
unfolding found_meta
found_meta-put f k v [] = refl
found_meta-put f k v ((k', v') ∷ m) = elim (Bool-cases (k' == k)) [
  | inl same ↦ rw same refl
  | inr apart ↦ rw apart refl
]

put_all-meta :
    (f : Formats) (ws : Workspace) (old : List (String × String))
    → ((t : ℕ) → f.parse_nano (f.format_nano t) ≡ some t)
    → found_meta f (put_all (meta_fields f ws) old) ≡ some ws
unfolding meta_fields workspace_of
put_all-meta f ws old reads =
    found_meta-put f "created_at" (f.format_nano ws.created_at) (
      put "description" ws.description
        (put "owner_id" ws.owner_id (put "slug" ws.slug (put "name" ws.name (put "id" ws.id old)))))
    ∙ simp (text_at-put, reads, nano_or_plain)

put_all-meta-ne-nil :
    (f : Formats) (ws : Workspace) (old : List (String × String))
    → put_all (meta_fields f ws) old ≢ []
unfolding meta_fields
put_all-meta-ne-nil f ws old = put-ne-nil "created_at" (f.format_nano ws.created_at) (
    put "description" ws.description
      (put "owner_id" ws.owner_id (put "slug" ws.slug (put "name" ws.name (put "id" ws.id old)))))

module _ {W : Type 0} (rdb : Redis W) (set : W → String → List String)
    (hash : W → String → List (String × String)) (keeping : Keeping rdb set hash) (f : Formats)
    (reads : (t : ℕ) → f.parse_nano (f.format_nano t) ≡ some t) where
  -- In a Redis that keeps to its documentation, the metadata of a workspace that has been cached is
  -- read back with all its fields, whatever was cached under its id before, if a time that has been
  -- formatted can be parsed.
  pub set_workspace_meta-get :
      (ws : Workspace) (w w' : W)
      → set_workspace_meta rdb f ws w ≡ (ok tt, w')
      → get_workspace_meta rdb f ws.id w' ≡ (ok (some ws), w')
  unfolding set_workspace_meta get_workspace_meta
  set_workspace_meta-get ws w w' e =
      let key = workspace_meta_key ws.id in
      let held : hash w' key ≡ put_all (meta_fields f ws) (hash w key) =
        keeping.hashes w w' (hset key (meta_fields f ws) ∷ expire key ∷ []) key e
        ∙ rw (eq_refl key) refl in
      rw
        (
          keeping.fields w' key (λ empty. put_all-meta-ne-nil f ws (hash w key) (sym held ∙ empty)),
          held,
          put_all-meta f ws (hash w key) reads,
        )
        refl
