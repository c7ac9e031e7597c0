-- ===== src/Project/Cache.antt =====
-- services/workspace-service/internal/project/cache.go.
pub mod Lists
pub mod Metas
use distributed_workflow_sys.Prelude.{
  ℕ, String, Option, none, some, List, [], ◌∷◌, map, eqb, if◌then◌else◌, joined,
}
use distributed_workflow_sys.Prelude.Act.{Act, ◌>>=◌, pure}
use distributed_workflow_sys.Domain.Project.{Project}
use distributed_workflow_sys.Redis.{Redis, Command, hset, zadd, del, expire, lex_max}
use distributed_workflow_sys.Task.Cache.{Formats, text_at, nano_or_plain}

unfoldable pub project_list_key : String → String
project_list_key workspace_id = joined ("workspace:" ∷ workspace_id ∷ ":projects" ∷ [])

unfoldable pub project_meta_key : String → String
project_meta_key project_id = joined ("project:" ∷ project_id ∷ ":meta" ∷ [])

unfoldable pub project_fields : Formats → Project → List (String × String)
project_fields f p =
    ("id", p.id)
    ∷ ("workspace_id", p.workspace_id)
    ∷ ("name", p.name)
    ∷ ("description", p.description)
    ∷ ("status", p.status)
    ∷ ("created_by", p.created_by)
    ∷ ("created_at", f.format_nano p.created_at)
    ∷ []

unfoldable pub project_of : Formats → List (String × String) → Project
unfolding nano_or_plain
project_of f res = record {
  id = text_at "id" res;
  workspace_id = text_at "workspace_id" res;
  name = text_at "name" res;
  description = text_at "description" res;
  status = text_at "status" res;
  created_by = text_at "created_by" res;
  created_at = nano_or_plain f (text_at "created_at" res) (f.parse_nano (text_at "created_at" res));
}

-- The results of the pipeline, in which an empty hash is a missing one.
unfoldable pub read_metas :
    Formats → List String → List (List (String × String)) → List Project × List String
unfolding project_of
read_metas f [] hashes = ([], [])
read_metas f (id ∷ ids) [] = let rest = read_metas f ids [] in (rest.0, id ∷ rest.1)
read_metas f (id ∷ ids) ([] ∷ hashes) = let rest = read_metas f ids hashes in (rest.0, id ∷ rest.1)
read_metas f (id ∷ ids) ((field ∷ res) ∷ hashes) =
    let rest = read_metas f ids hashes in (project_of f (field ∷ res) ∷ rest.0, rest.1)

-- Of an empty list nothing is stored but the key's end.
unfoldable pub stored_ids : String → List String → List Command
stored_ids key [] = del key ∷ []
stored_ids key (id ∷ ids) = del key ∷ zadd key (id ∷ ids) ∷ expire key ∷ []

module _ {W : Type 0} (rdb : Redis W) where
  unfoldable pub add_project_id : String → String → Act W (Unit {0})
  unfolding project_list_key
  add_project_id workspace_id project_id = rdb.exists (project_list_key workspace_id) >>= λ exists.
      if eqb exists 0
      then pure tt
      else rdb.exec (zadd (project_list_key workspace_id) (project_id ∷ []) ∷ [])

  unfoldable pub set_project_meta : Formats → Project → Act W (Unit {0})
  unfolding project_fields project_meta_key
  set_project_meta f p =
      rdb.exec
        (hset (project_meta_key p.id) (project_fields f p) ∷ expire (project_meta_key p.id) ∷ [])

  unfoldable pub get_project_metas : Formats → List String → Act W (List Project × List String)
  unfolding read_metas project_meta_key
  get_project_metas f [] = pure ([], [])
  get_project_metas f (id ∷ project_ids) = do
    hashes ← rdb.hget_alls (map project_meta_key (id ∷ project_ids))
    pure (read_metas f (id ∷ project_ids) hashes)

  unfoldable pub get_project_ids : String → ℕ → String → Act W (Option (List String))
  unfolding lex_max project_list_key
  get_project_ids workspace_id limit cursor =
      rdb.exists (project_list_key workspace_id) >>= λ exists.
      if eqb exists 0
      then pure none
      else (rdb.zrev_range_by_lex (project_list_key workspace_id) (lex_max cursor) limit >>= λ ids.
          pure (some ids))

  unfoldable pub set_project_ids : String → List String → Act W (Unit {0})
  unfolding stored_ids project_list_key
  set_project_ids workspace_id ids = rdb.exec (stored_ids (project_list_key workspace_id) ids)

  unfoldable invalidate_projects : String → Act W (Unit {0})
  unfolding project_list_key
  invalidate_projects workspace_id = rdb.exec (del (project_list_key workspace_id) ∷ [])
