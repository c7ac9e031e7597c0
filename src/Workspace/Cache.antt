-- ===== src/Workspace/Cache.antt =====
-- services/workspace-service/internal/workspace/cache.go but for the roles, which are in
-- Workspace/RoleCache.antt. JSON is a parameter.
pub mod Lists
pub mod Metas
use distributed_workflow_sys.Prelude.{
  ℕ, String, Option, none, some, Bool, not, List, [], ◌∷◌, ◌++◌, map, keep, ◌==◌, eqb,
  if◌then◌else◌, joined,
}
use distributed_workflow_sys.Prelude.Act.{
  Act, Result, ok, fail, ◌>>=◌, ◌>>◌, pure, returned, ignore,
}
use distributed_workflow_sys.Domain.Workspace.{Workspace, WorkspaceMemberResponse}
use distributed_workflow_sys.Redis.{Redis, Command, hset, hdel, zadd, zrem, del, expire, lex_max}
use distributed_workflow_sys.Task.Cache.{Formats, text_at, nano_or_plain, placeholder}

-- `json.Marshal` and `json.Unmarshal` of a member.
pub record Json : Type 0 where
  pub marshal : WorkspaceMemberResponse → Result String
  pub unmarshal : String → Result WorkspaceMemberResponse

unfoldable pub user_owned_key : String → String
user_owned_key user_id = joined ("user:" ∷ user_id ∷ ":workspaces:owned" ∷ [])

unfoldable pub user_joined_key : String → String
user_joined_key user_id = joined ("user:" ∷ user_id ∷ ":workspaces:joined" ∷ [])

unfoldable pub workspace_meta_key : String → String
workspace_meta_key workspace_id = joined ("workspace:" ∷ workspace_id ∷ ":meta" ∷ [])

unfoldable pub workspace_members_key : String → String
workspace_members_key workspace_id = joined ("workspace:" ∷ workspace_id ∷ ":members" ∷ [])

-- The fields of a workspace's hash, and the workspace that a hash describes.
unfoldable pub meta_fields : Formats → Workspace → List (String × String)
meta_fields f ws =
    ("id", ws.id)
    ∷ ("name", ws.name)
    ∷ ("slug", ws.slug)
    ∷ ("owner_id", ws.owner_id)
    ∷ ("description", ws.description)
    ∷ ("created_at", f.format_nano ws.created_at)
    ∷ []

unfoldable pub workspace_of : Formats → List (String × String) → Workspace
unfolding nano_or_plain
workspace_of f res = record {
  id = text_at "id" res;
  name = text_at "name" res;
  slug = text_at "slug" res;
  owner_id = text_at "owner_id" res;
  description = text_at "description" res;
  created_at = nano_or_plain f (text_at "created_at" res) (f.parse_nano (text_at "created_at" res));
}

unfoldable pub found_meta : Formats → List (String × String) → Option Workspace
unfolding workspace_of
found_meta f [] = none
found_meta f (field ∷ res) = some (workspace_of f (field ∷ res))

-- The results of the pipeline, in which an empty hash is a missing one.
unfoldable pub read_metas :
    Formats → List String → List (List (String × String)) → List Workspace × List String
unfolding workspace_of
read_metas f [] hashes = ([], [])
read_metas f (id ∷ ids) [] = let rest = read_metas f ids [] in (rest.0, id ∷ rest.1)
read_metas f (id ∷ ids) ([] ∷ hashes) = let rest = read_metas f ids hashes in (rest.0, id ∷ rest.1)
read_metas f (id ∷ ids) ((field ∷ res) ∷ hashes) =
    let rest = read_metas f ids hashes in (workspace_of f (field ∷ res) ∷ rest.0, rest.1)

-- The commands that store a list of ids.
unfoldable pub stored_ids : String → List String → List Command
stored_ids key [] = del key ∷ zadd key (placeholder ∷ []) ∷ expire key ∷ []
stored_ids key (id ∷ ids) = del key ∷ zadd key (id ∷ ids) ∷ expire key ∷ []

abbrev pub real_ids : List String → List String
real_ids ids = keep (λ id. not (id == placeholder)) ids

module _ {W : Type 0} (rdb : Redis W) where
  -- An id joins a list that is cached.
  unfoldable pub add_id : String → String → Act W (Unit {0})
  add_id key workspace_id = rdb.exists key >>= λ exists.
      if eqb exists 0
      then pure tt
      else rdb.exec (zrem key placeholder ∷ zadd key (workspace_id ∷ []) ∷ [])

  unfoldable pub add_owned_workspace_id : String → String → Act W (Unit {0})
  unfolding add_id user_owned_key
  add_owned_workspace_id user_id workspace_id = add_id (user_owned_key user_id) workspace_id

  unfoldable pub add_joined_workspace_id : String → String → Act W (Unit {0})
  unfolding add_id user_joined_key
  add_joined_workspace_id user_id workspace_id = add_id (user_joined_key user_id) workspace_id

  unfoldable pub set_workspace_meta : Formats → Workspace → Act W (Unit {0})
  unfolding meta_fields workspace_meta_key
  set_workspace_meta f ws =
      rdb.exec (
        hset (workspace_meta_key ws.id) (meta_fields f ws) ∷ expire (workspace_meta_key ws.id) ∷ [])

  unfoldable pub get_workspace_meta : Formats → String → Act W (Option Workspace)
  unfolding found_meta workspace_meta_key
  get_workspace_meta f workspace_id = do
    res ← rdb.hget_all (workspace_meta_key workspace_id)
    pure (found_meta f res)

  unfoldable pub get_workspace_metas : Formats → List String → Act W (List Workspace × List String)
  unfolding read_metas workspace_meta_key
  get_workspace_metas f [] = pure ([], [])
  get_workspace_metas f (id ∷ workspace_ids) = do
    hashes ← rdb.hget_alls (map workspace_meta_key (id ∷ workspace_ids))
    pure (read_metas f (id ∷ workspace_ids) hashes)

  -- A page of a list of ids, if the list is cached.
  unfoldable pub get_ids : String → ℕ → String → Act W (Option (List String))
  unfolding lex_max
  get_ids key limit cursor = rdb.exists key >>= λ exists.
      if eqb exists 0
      then pure none
      else (rdb.zrev_range_by_lex key (lex_max cursor) limit >>= λ ids. pure (some (real_ids ids)))

  unfoldable pub get_owned_workspace_ids : String → ℕ → String → Act W (Option (List String))
  unfolding get_ids user_owned_key
  get_owned_workspace_ids user_id limit cursor = get_ids (user_owned_key user_id) limit cursor

  unfoldable pub get_joined_workspace_ids : String → ℕ → String → Act W (Option (List String))
  unfolding get_ids user_joined_key
  get_joined_workspace_ids user_id limit cursor = get_ids (user_joined_key user_id) limit cursor

  unfoldable pub set_owned_workspace_ids : String → List String → Act W (Unit {0})
  unfolding stored_ids user_owned_key
  set_owned_workspace_ids user_id ids = rdb.exec (stored_ids (user_owned_key user_id) ids)

  unfoldable pub set_joined_workspace_ids : String → List String → Act W (Unit {0})
  unfolding stored_ids user_joined_key
  set_joined_workspace_ids user_id ids = rdb.exec (stored_ids (user_joined_key user_id) ids)

  unfoldable invalidate_owned_workspaces : String → Act W (Unit {0})
  unfolding user_owned_key
  invalidate_owned_workspaces user_id = rdb.exec (del (user_owned_key user_id) ∷ [])

  unfoldable invalidate_joined_workspaces : String → Act W (Unit {0})
  unfolding user_joined_key
  invalidate_joined_workspaces user_id = rdb.exec (del (user_joined_key user_id) ∷ [])
