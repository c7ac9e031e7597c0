-- ===== src/Project/Cache/Metas.antt =====
-- What the cached metadata of projects gives.
use distributed_workflow_sys.Prelude.{
  ℕ, ◌≡◌, ◌≢◌, refl, sym, ap, ap₂, ◌∙◌, String, some, Bool, true, false, not, List, [], ◌∷◌, map,
  keep, All, eq_refl, if◌then◌else◌,
}
use distributed_workflow_sys.Prelude.Act.{ok}
use distributed_workflow_sys.Domain.Project.{Project}
use distributed_workflow_sys.Redis.{Redis, hset, expire}
use distributed_workflow_sys.Redis.Laws.{Keeping, put_all, text_at-put, put-ne-nil}
use distributed_workflow_sys.Task.Cache.{Formats, nano_or_plain}
use distributed_workflow_sys.Project.Cache.{
  project_meta_key, project_fields, project_of, read_metas, set_project_meta, get_project_metas,
}

abbrev is_cached : List (String × String) → Bool
is_cached [] = false
is_cached (field ∷ res) = true

module _ (f : Formats) (row : String → Project) where
  -- The hash at a key is missing or describes the row.
  abbrev pub Held : String → List (String × String) → Type 0
  Held id [] = Unit {0}
  Held id (field ∷ res) = project_of f (field ∷ res) ≡ row id

  read_metas-step :
      (id : String) (res : List (String × String)) (ids : List String)
      (hashes : List (List (String × String))) (found missing : List String)
      → Held id res
      → read_metas f ids hashes ≡ (map row found, missing)
      → read_metas f (id ∷ ids) (res ∷ hashes) ≡ (
        map row (if is_cached res then id ∷ found else found),
        if not (is_cached res) then id ∷ missing else missing,
      )
  unfolding read_metas
  read_metas-step id [] ids hashes found missing h e = rw e refl
  read_metas-step id (field ∷ res) ids hashes found missing h e =
      ap₂ (λ (p : Project) (rest : List Project × List String). (p ∷ rest.0, rest.1)) h e

  read_metas-Split :
      (at : String → List (String × String)) (ids : List String)
      → All (λ id. Held id (at id)) ids
      → read_metas f ids (map at ids)
        ≡ (map row (keep (λ id. is_cached (at id)) ids), keep (λ id. not (is_cached (at id))) ids)
  unfolding read_metas
  read_metas-Split at [] h = refl
  read_metas-Split at (id ∷ ids) h =
      read_metas-step id (at id) ids (map at ids) (keep (λ i. is_cached (at i)) ids)
        (keep (λ i. not (is_cached (at i))) ids) h.0 (read_metas-Split at ids h.1)

project_of-put_all :
    (f : Formats) (p : Project) (old : List (String × String))
    → ((t : ℕ) → f.parse_nano (f.format_nano t) ≡ some t)
    → project_of f (put_all (project_fields f p) old) ≡ p
unfolding project_of project_fields
project_of-put_all f p old reads = simp (text_at-put, reads, nano_or_plain)

put_all-project-ne-nil :
    (f : Formats) (p : Project) (old : List (String × String))
    → put_all (project_fields f p) old ≢ []
unfolding project_fields
put_all-project-ne-nil f p old = put-ne-nil "created_at" (f.format_nano p.created_at) (
    put_all
      (("id", p.id)
        ∷ ("workspace_id", p.workspace_id)
        ∷ ("name", p.name)
        ∷ ("description", p.description)
        ∷ ("status", p.status)
        ∷ ("created_by", p.created_by)
        ∷ [])
      old)

cached_hash :
    (f : Formats) (row : String → Project) (id : String) (res : List (String × String))
    → res ≢ []
    → project_of f res ≡ row id
    → (is_cached res ≡ true) × Held f row id res
cached_hash f row id [] h e = absurd (h refl)
cached_hash f row id (field ∷ res) h e = (refl, e)

module _ {W : Type 0} (rdb : Redis W) (set : W → String → List String)
    (hash : W → String → List (String × String)) (keeping : Keeping rdb set hash)
    (f : Formats) where
  abbrev at : W → String → List (String × String)
  at w id = hash w (project_meta_key id)

  keys-All :
      (w : W) (ids : List String)
      → All (λ id. set w (project_meta_key id) ≡ []) ids
      → All (λ key. set w key ≡ []) (map project_meta_key ids)
  keys-All w [] h = tt
  keys-All w (id ∷ ids) h = (h.0, keys-All w ids h.1)

  map-at : (w : W) (ids : List String) → map (hash w) (map project_meta_key ids) ≡ map (at w) ids
  map-at w [] = refl
  map-at w (id ∷ ids) = ap (◌∷◌ (at w id)) (map-at w ids)

  -- In a Redis that keeps to its documentation, whose metadata keys hold hashes that describe rows
  -- of the table or nothing, GetProjectMetas returns the rows of the ids whose hash is there, and
  -- the other ids, both in the order asked for.
  pub get_project_metas-Split :
      (row : String → Project) (ids : List String) (w : W)
      → All (λ id. set w (project_meta_key id) ≡ []) ids
      → All (λ id. Held f row id (at w id)) ids
      → get_project_metas rdb f ids w ≡ (
        ok (
          map row (keep (λ id. is_cached (at w id)) ids),
          keep (λ id. not (is_cached (at w id))) ids,
        ),
        w,
      )
  unfolding get_project_metas
  get_project_metas-Split row [] w h held = refl
  get_project_metas-Split row (id ∷ ids) w h held =
      let read : rdb.hget_alls (map project_meta_key (id ∷ ids)) w
          ≡ (ok (map (at w) (id ∷ ids)), w) =
        keeping.all_fields w (map project_meta_key (id ∷ ids)) (keys-All w (id ∷ ids) h)
        ∙ ap (λ hashes. (ok hashes, w)) (map-at w (id ∷ ids)) in
      rw read (ap (λ metas. (ok metas, w)) (read_metas-Split f row (at w) (id ∷ ids) held))

  -- A project whose metadata has been cached is read back with all its fields, whatever was cached
  -- under its id before, if a time that has been formatted can be parsed.
  pub set_project_meta-get :
      (p : Project) (w w' : W)
      → ((t : ℕ) → f.parse_nano (f.format_nano t) ≡ some t)
      → set w (project_meta_key p.id) ≡ []
      → set_project_meta rdb f p w ≡ (ok tt, w')
      → get_project_metas rdb f (p.id ∷ []) w' ≡ (ok (p ∷ [], []), w')
  unfolding set_project_meta
  set_project_meta-get p w w' reads no_set e =
      let key = project_meta_key p.id in
      let cs = hset key (project_fields f p) ∷ expire key ∷ [] in
      let held : hash w' key ≡ put_all (project_fields f p) (hash w key) =
        keeping.hashes w w' cs key e ∙ rw (eq_refl key) refl in
      let known =
        cached_hash f (λ _. p) p.id (hash w' key)
          (λ empty. put_all-project-ne-nil f p (hash w key) (sym held ∙ empty))
          (ap (project_of f) held ∙ project_of-put_all f p (hash w key) reads) in
      get_project_metas-Split (λ _. p) (p.id ∷ []) w' (keeping.sets w w' cs key e ∙ no_set, tt)
        (known.1, tt)
      ∙ rw (known.0) refl
