-- ===== src/Paging/Cached.antt =====
-- A list of rows of which Redis holds the ids and each row's metadata: the body that
-- GetWorkspacesByOwner, GetWorkspacesByMember and GetProjectsByWorkspace share.
pub mod Page
use distributed_workflow_sys.Prelude.{ℕ, String, Option, none, some, List, [], ◌∷◌, ◌++◌, map}
use distributed_workflow_sys.Prelude.Act.{Act, ◌>>=◌, ◌>>◌, pure, attempt, ignore, each, value_or}

-- The calls of the cache and the repository that the methods make. `load` reads all rows, of which
-- `page` gives those for a limit and a cursor.
pub record Source (W A : Type 0) : Type 0 where
  pub key : A → String
  pub cached_ids : ℕ → String → Act W (Option (List String))
  pub load : Act W (List A)
  pub page : List A → String → ℕ → List A
  pub store_ids : List String → Act W (Unit {0})
  pub set_meta : A → Act W (Unit {0})
  pub get_metas : List String → Act W (List A × List String)
  pub find : String → Act W (Option A)
  pub sort : List A → List A

module _ {W A : Type 0} (src : Source W A) where
  -- The ids are not cached: all rows are read, cached and cut.
  unfoldable pub from_table : ℕ → String → Act W (List A)
  from_table limit cursor = do
    rows ← src.load
    each (λ row. ignore (src.set_meta row)) rows
    ignore (src.store_ids (map src.key rows))
    pure (src.page rows cursor limit)

  unfoldable pub add_found : Option A → List A → Act W (List A)
  add_found none rows = pure rows
  add_found (some row) rows = do ignore (src.set_meta row); pure (rows ++ row ∷ [])

  -- The rows of the ids without cached metadata.
  unfoldable pub fetch_missing : List String → List A → Act W (List A)
  unfolding add_found
  fetch_missing [] rows = pure rows
  fetch_missing (id ∷ missing_ids) rows = do
    row ← src.find id
    rows' ← add_found row rows
    fetch_missing missing_ids rows'

  unfoldable pub with_metas : List A × List String → Act W (List A)
  unfolding fetch_missing
  with_metas (cached_metas, missing_ids) = do
    rows ← fetch_missing missing_ids cached_metas
    pure (src.sort rows)

  -- The ids are cached. A failing look at the metadata counts as an empty answer.
  unfoldable pub from_ids : List String → Act W (List A)
  unfolding with_metas
  from_ids [] = pure []
  from_ids (id ∷ ids) = do
    metas ← attempt (src.get_metas (id ∷ ids))
    with_metas (value_or ([], []) metas)

  unfoldable pub by_ids : ℕ → String → Option (List String) → Act W (List A)
  unfolding from_table from_ids
  by_ids limit cursor none = from_table limit cursor
  by_ids limit cursor (some ids) = from_ids ids

  -- A failing look at the ids counts as a miss.
  unfoldable pub cached_list : ℕ → String → Act W (List A)
  unfolding by_ids
  cached_list limit cursor = do
    ids ← attempt (src.cached_ids limit cursor)
    by_ids limit cursor (value_or none ids)
