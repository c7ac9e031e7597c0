-- ===== src/User/Repository/Queries.antt =====
-- The methods of services/workspace-service/internal/user/repository.go that are one statement, and
-- the repository that they make with the bulk upsert.
use distributed_workflow_sys.Prelude.{String, none, [], ◌∷◌}
use distributed_workflow_sys.Prelude.Act.{Act, ◌>>=◌, pure}
use distributed_workflow_sys.Domain.User.{UserSnapshot, UserRepository}
use distributed_workflow_sys.Sql.{text, time}
use distributed_workflow_sys.Sql.Query.{
  Row, Db, select, upsert, Condition, equal, column, Select, Write, columns_of,
}
use distributed_workflow_sys.Sql.Scan.{text_in, time_in}
use distributed_workflow_sys.User.Repository.{InQuery, bulk_upsert_users}

abbrev select_user : Condition → Select
select_user condition = record {
  columns =
      columns_of "" ("id" ∷ "full_name" ∷ "email" ∷ "avatar_url" ∷ "role" ∷ "created_at" ∷ []);
  table = "users";
  alias = "";
  joins = [];
  conditions = condition ∷ [];
  order = [];
  limit = none;
}

-- The named parameters stand for the fields of the same names, in this order.
abbrev pub upsert_user_row : Write
upsert_user_row =
    upsert "users" ("id" ∷ "full_name" ∷ "email" ∷ "avatar_url" ∷ "role" ∷ "created_at" ∷ []) "id"
      ("full_name" ∷ "email" ∷ "avatar_url" ∷ "role" ∷ [])

module _ {W : Type 0} where
  -- The struct tags of UserSnapshot.
  unfoldable pub scan_user : Row → Act W UserSnapshot
  scan_user row = do
    id ← text_in row "id"
    full_name ← text_in row "full_name"
    email ← text_in row "email"
    avatar_url ← text_in row "avatar_url"
    role ← text_in row "role"
    created_at ← time_in row "created_at"
    pure (record {
      id = id;
      full_name = full_name;
      email = email;
      role = role;
      avatar_url = avatar_url;
      created_at = created_at;
    })

module _ {W : Type 0} (db : Db W) where
  unfoldable pub upsert_user : UserSnapshot → Act W (Unit {0})
  upsert_user u = db.exec_context upsert_user_row (
      text u.id
      ∷ text u.full_name
      ∷ text u.email
      ∷ text u.avatar_url
      ∷ text u.role
      ∷ time u.created_at
      ∷ [])

  unfoldable pub find_by_id : String → Act W UserSnapshot
  unfolding scan_user
  find_by_id id =
      db.get_context (select (select_user (equal (column "" "id") 1))) (text id ∷ []) >>= scan_user

  unfoldable pub find_by_email : String → Act W UserSnapshot
  unfolding scan_user
  find_by_email email =
      db.get_context (select (select_user (equal (column "" "email") 1))) (text email ∷ [])
      >>= scan_user

  abbrev pub repository : (InQuery → Act W (Unit {0})) → UserRepository W
  repository exec = record {
    upsert_user = upsert_user;
    bulk_upsert_users = bulk_upsert_users exec;
    find_by_id = find_by_id;
    find_by_email = find_by_email;
  }
