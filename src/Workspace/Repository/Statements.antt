-- ===== src/Workspace/Repository/Statements.antt =====
-- The texts of the statements of services/workspace-service/internal/workspace/repository.go, as
-- their parts.
use distributed_workflow_sys.Prelude.{ℕ, String, none, some, List, [], ◌∷◌, ◌++◌}
use distributed_workflow_sys.Sql.Query.{
  Expr, column, literal, Condition, equal, below, Join, inner, desc, Select, Write, insert, update,
  columns_of,
}

abbrev workspace_names : List String
workspace_names = "id" ∷ "name" ∷ "slug" ∷ "owner_id" ∷ "description" ∷ "created_at" ∷ []

abbrev from_table : String → List String → List Condition → Select
from_table table names conditions = record {
  columns = columns_of "" names;
  table = table;
  alias = "";
  joins = [];
  conditions = conditions;
  order = [];
  limit = none;
}

abbrev pub workspace_by_id : Select
workspace_by_id = from_table "workspaces" workspace_names (equal (column "" "id") 1 ∷ [])

abbrev pub workspace_by_slug : Select
workspace_by_slug = from_table "workspaces" workspace_names (equal (column "" "slug") 1 ∷ [])

abbrev pub workspace_by_slug_and_id : Select
workspace_by_slug_and_id =
    from_table "workspaces" workspace_names
      (equal (column "" "slug") 1 ∷ equal (column "" "id") 2 ∷ [])

abbrev pub owned_by : Select
owned_by = record (from_table "workspaces" workspace_names (equal (column "" "owner_id") 1 ∷ [])) {
  order = (column "" "id", desc) ∷ [];
  limit = some 2;
}

abbrev pub owned_by_below : Select
owned_by_below =
    record (from_table "workspaces" workspace_names
      (equal (column "" "owner_id") 1 ∷ below (column "" "id") 2 ∷ [])) {
        order = (column "" "id", desc) ∷ [];
        limit = some 3;
      }

-- `INNER JOIN workspace_members wm ON w.id = wm.workspace_id`.
abbrev membership : Join
membership = record {
  kind = inner;
  table = "workspace_members";
  alias = "wm";
  on = (column "w" "id", column "wm" "workspace_id");
}

abbrev select_joined : List Condition → ℕ → Select
select_joined conditions limit = record {
  columns = columns_of "w" workspace_names;
  table = "workspaces";
  alias = "w";
  joins = membership ∷ [];
  conditions = conditions;
  order = (column "w" "id", desc) ∷ [];
  limit = some limit;
}

abbrev pub joined_by : Select
joined_by = select_joined (equal (column "wm" "user_id") 1 ∷ []) 2

abbrev pub joined_by_below : Select
joined_by_below = select_joined (equal (column "wm" "user_id") 1 ∷ below (column "w" "id") 2 ∷ []) 3

abbrev invite_names : List String
invite_names =
    "id" ∷ "workspace_id" ∷ "inviter_id" ∷ "email" ∷ "role" ∷ "token" ∷ "status" ∷ "expires_at"
    ∷ "created_at" ∷ []

abbrev pub invite_by_token : Select
invite_by_token = from_table "workspace_invitations" invite_names (equal (column "" "token") 1 ∷ [])

abbrev pub invite_by_token_and_workspace : Select
invite_by_token_and_workspace =
    from_table "workspace_invitations" invite_names
      (equal (column "" "token") 1 ∷ equal (column "" "workspace_id") 2 ∷ [])

abbrev membership_of : List Condition
membership_of = equal (column "" "workspace_id") 1 ∷ equal (column "" "user_id") 2 ∷ []

-- `SELECT 1`, of which only the rows count.
abbrev pub member_exists : Select
member_exists = from_table "workspace_members" [] membership_of

abbrev pub role_of_member : Select
role_of_member = from_table "workspace_members" ("role" ∷ []) membership_of

abbrev user_columns : List (Expr × String)
user_columns = columns_of "u" ("full_name" ∷ "email" ∷ [])

abbrev pub owner_as_member : Select
owner_as_member = record {
  columns =
      (column "w" "owner_id", "user_id") ∷ user_columns
      ++ (literal "OWNER", "role") ∷ (column "w" "created_at", "joined_at") ∷ [];
  table = "workspaces";
  alias = "w";
  joins =
      record {
        kind = inner;
        table = "users";
        alias = "u";
        on = (column "w" "owner_id", column "u" "id");
      }
      ∷ [];
  conditions = equal (column "w" "id") 1 ∷ [];
  order = [];
  limit = none;
}

abbrev pub members_of : Select
members_of = record {
  columns =
      (column "wm" "user_id", "user_id") ∷ user_columns
      ++ columns_of "wm" ("role" ∷ "joined_at" ∷ []);
  table = "workspace_members";
  alias = "wm";
  joins =
      record {
        kind = inner;
        table = "users";
        alias = "u";
        on = (column "wm" "user_id", column "u" "id");
      }
      ∷ [];
  conditions = equal (column "wm" "workspace_id") 1 ∷ [];
  order = [];
  limit = none;
}

abbrev pub create_workspace_row : Write
create_workspace_row =
    insert "workspaces" ("id" ∷ "name" ∷ "slug" ∷ "owner_id" ∷ "description" ∷ []) ("id" ∷ [])

abbrev pub create_invite_row : Write
create_invite_row =
    insert "workspace_invitations"
      ("id" ∷ "workspace_id" ∷ "inviter_id" ∷ "email" ∷ "role" ∷ "token" ∷ "status" ∷ "expires_at"
        ∷ [])
      ("id" ∷ "created_at" ∷ [])

abbrev pub invite_key : List Condition
invite_key = equal (column "" "id") 2 ∷ equal (column "" "workspace_id") 3 ∷ []

abbrev pub update_invite_row : Write
update_invite_row = update "workspace_invitations" (("status", 1) ∷ []) invite_key

abbrev pub add_member_row : Write
add_member_row = insert "workspace_members" ("id" ∷ "workspace_id" ∷ "user_id" ∷ "role" ∷ []) []
