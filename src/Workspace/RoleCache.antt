-- ===== src/Workspace/RoleCache.antt =====
-- The cached roles of services/workspace-service/internal/workspace/cache.go. The Redis client is a
-- parameter; `hset_expire` is a transaction of HSET and EXPIRE, and `hget` gives `none` for
-- redis.Nil.
use distributed_workflow_sys.Prelude.{
  ℕ, ◌≡◌, ◌≢◌, refl, ap, ◌∙◌, String, Option, none, some, List, [], ◌∷◌, eqb, if◌then◌else◌, joined,
}
use distributed_workflow_sys.Prelude.Act.{Act, ok, fail, ◌>>=◌, pure}
use distributed_workflow_sys.Task.Service.{Service, not_a_member, role_or_fetch, check_member}

pub record Redis (W : Type 0) : Type 0 where
  pub exists : String → Act W ℕ
  pub hget : String → String → Act W (Option String)
  pub hset_expire : String → String → String → Act W (Unit {0})
  pub hdel : String → String → Act W (Unit {0})

unfoldable pub workspace_roles_key : String → String
workspace_roles_key workspace_id = joined ("workspace:" ∷ workspace_id ∷ ":roles" ∷ [])

-- A missing field of a hash that exists is read as the empty role.
abbrev pub field_role : Option String → String
field_role none = ""
field_role (some role) = role

module _ {W : Type 0} (rdb : Redis W) where
  unfoldable pub get_member_role : String → String → Act W (Option String)
  unfolding workspace_roles_key
  get_member_role workspace_id user_id = rdb.exists (workspace_roles_key workspace_id) >>= λ n.
      if eqb n 0
      then pure none
      else (rdb.hget (workspace_roles_key workspace_id) user_id >>= λ field.
          pure (some (field_role field)))

  unfoldable pub set_member_role : String → String → String → Act W (Unit {0})
  unfolding workspace_roles_key
  set_member_role workspace_id user_id role =
      rdb.hset_expire (workspace_roles_key workspace_id) user_id role

  unfoldable pub invalidate_member_role : String → String → Act W (Unit {0})
  unfolding workspace_roles_key
  invalidate_member_role workspace_id user_id = rdb.hdel (workspace_roles_key workspace_id) user_id

-- What Redis says of hashes: `hash` is the content. A read answers and changes nothing; a hash with
-- a field exists; a write sets its field and no other.
pub record Hashes {W : Type 0} (rdb : Redis W) (hash : W → String → String → Option String)
    : Type 0 where
  pub hget : (w : W) (key field : String) → rdb.hget key field w ≡ (ok (hash w key field), w)
  pub exists :
      (w : W) (key field value : String)
      → hash w key field ≡ some value
      → rdb.exists key w ≡ (ok 1, w)
  pub set :
      (w w' : W) (key field value : String)
      → rdb.hset_expire key field value w ≡ (ok tt, w')
      → hash w' key field ≡ some value
  pub set_other :
      (w w' : W) (key field value other : String)
      → rdb.hset_expire key field value w ≡ (ok tt, w')
      → other ≢ field
      → hash w' key other ≡ hash w key other

module _ {W : Type 0} (rdb : Redis W) (hash : W → String → String → Option String)
    (laws : Hashes rdb hash) where
  get_member_role-field :
      (workspace_id user_id other value : String) (w : W)
      → hash w (workspace_roles_key workspace_id) other ≡ some value
      → get_member_role rdb workspace_id user_id w
        ≡ (ok (some (field_role (hash w (workspace_roles_key workspace_id) user_id))), w)
  unfolding get_member_role
  get_member_role-field workspace_id user_id other value w h =
      rw
        (
          laws.exists w (workspace_roles_key workspace_id) other value h,
          laws.hget w (workspace_roles_key workspace_id) user_id,
        )
        refl

  -- After a role has been cached it is read back, and every other user of the workspace reads a
  -- role too: the one cached before, or the empty one if there was none.
  pub set_member_role-get :
      (workspace_id user_id role : String) (w w' : W)
      → set_member_role rdb workspace_id user_id role w ≡ (ok tt, w')
      → ((get_member_role rdb workspace_id user_id w').0 ≡ ok (some role))
        × ((other : String)
            → other ≢ user_id
            → (get_member_role rdb workspace_id other w').0
              ≡ ok (some (field_role (hash w (workspace_roles_key workspace_id) other))))
  unfolding set_member_role
  set_member_role-get workspace_id user_id role w w' h =
      let key = workspace_roles_key workspace_id in
      let stored = laws.set w w' key user_id role h in
      (
        ap (λ r. r.0) (get_member_role-field workspace_id user_id user_id role w' stored)
            ∙ ap (λ o. ok (some (field_role o))) stored,
        λ other apart.
            ap (λ r. r.0) (get_member_role-field workspace_id other user_id role w' stored)
            ∙ ap (λ o. ok (some (field_role o)))
                (laws.set_other w w' key user_id role other h apart),
      )

  -- Once the role of one user of a workspace has been cached, a check of any other user whose role
  -- is not cached refuses that user as a stranger, whatever role the member table holds.
  pub set_member_role-masks :
      (s : Service W) (workspace_id user_id role other : String) (allowed : List String) (w w' : W)
      → ((a b : String) (v : W) → s.ws_cache.get_member_role a b v ≡ get_member_role rdb a b v)
      → set_member_role rdb workspace_id user_id role w ≡ (ok tt, w')
      → other ≢ user_id
      → hash w (workspace_roles_key workspace_id) other ≡ none
      → (check_member s workspace_id other allowed w').0 ≡ fail not_a_member
  unfolding check_member role_or_fetch
  set_member_role-masks s workspace_id user_id role other allowed w w' same h apart missing =
      let found = (set_member_role-get workspace_id user_id role w w' h).1 other apart in
      rw (same workspace_id other w', found, missing) refl
