-- ===== src/User/Repository.antt =====
-- services/workspace-service/internal/user/repository.go: the bulk upsert, and the service method
-- over it (user/service.go). The expansion by `sqlx.In` and `Rebind` and the execution are the
-- parameter `exec`.
pub mod Queries
use distributed_workflow_sys.Prelude.{ℕ, String, List, [], ◌∷◌, ◌++◌}
use distributed_workflow_sys.Prelude.Act.{Act}
use distributed_workflow_sys.Domain.User.{UserSnapshot, UserRepository}
use distributed_workflow_sys.Sql.{Value, text, time}
use distributed_workflow_sys.Bulk.{bulk}

-- A query with `?` placeholders, one row for each element, and its flat arguments.
pub record InQuery : Type 0 where
  pub head : String
  pub placeholders : List String
  pub tail : String
  pub flat_args : List Value

unfoldable user_row : UserSnapshot → List Value
user_row u =
    text u.id
    ∷ text u.full_name
    ∷ text u.email
    ∷ text u.avatar_url
    ∷ text u.role
    ∷ time u.created_at
    ∷ []

-- The loop of bulkUpsertUsersBatch.
user_placeholders : List UserSnapshot → List String
user_placeholders [] = []
user_placeholders (u ∷ users) = "(?, ?, ?, ?, ?, ?)" ∷ user_placeholders users

user_args : List UserSnapshot → List Value
unfolding user_row
user_args [] = []
user_args (u ∷ users) = user_row u ++ user_args users

upsert_query : List UserSnapshot → InQuery
unfolding user_placeholders user_args
upsert_query users = record {
  head = "INSERT INTO users (id, full_name, email, avatar_url, role, created_at) VALUES ";
  placeholders = user_placeholders users;
  tail =
      " ON CONFLICT (id) DO UPDATE SET full_name = EXCLUDED.full_name, email = EXCLUDED.email, avatar_url = EXCLUDED.avatar_url, role = EXCLUDED.role";
  flat_args = user_args users;
}

module _ {W : Type 0} (exec : InQuery → Act W (Unit {0})) where
  unfoldable bulk_upsert_users_batch : List UserSnapshot → Act W (Unit {0})
  unfolding upsert_query
  bulk_upsert_users_batch users = exec (upsert_query users)

  -- BulkUpsertUsers with recursiveUpsert.
  pub bulk_upsert_users : List UserSnapshot → Act W (List UserSnapshot)
  unfolding bulk_upsert_users_batch
  bulk_upsert_users = bulk bulk_upsert_users_batch

module _ {W : Type 0} (user_repo : UserRepository W) where
  -- user/service.go.
  sync_user_snapshot : UserSnapshot → Act W (Unit {0})
  sync_user_snapshot user = user_repo.upsert_user user
