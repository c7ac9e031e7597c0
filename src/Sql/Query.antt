-- ===== src/Sql/Query.antt =====
-- The statements of the repositories of services/workspace-service as their parts, and the calls of
-- sqlx that hand them to the database. `$n` is kept as the number n.
use distributed_workflow_sys.Prelude.{ℕ, String, Option, List, map}
use distributed_workflow_sys.Prelude.Act.{Act}
use distributed_workflow_sys.Sql.{Value}

-- A column by the name of its table in the statement, which is empty where there is one table, or a
-- text in quotes.
pub data Expr : Type 0 where
  column : String → String → Expr
  literal : String → Expr

-- `e = $n`, `e < $n` and `e > $n`.
pub data Condition : Type 0 where
  equal : Expr → ℕ → Condition
  below : Expr → ℕ → Condition
  above : Expr → ℕ → Condition

pub data JoinKind : Type 0 where
  inner : JoinKind
  left : JoinKind

-- `JOIN table alias ON a = b`.
pub record Join : Type 0 where
  pub kind : JoinKind
  pub table : String
  pub alias : String
  pub on : Expr × Expr

pub data Direction : Type 0 where
  asc : Direction
  desc : Direction

-- The columns have the names that the result shows; the conditions are joined by AND.
pub record Select : Type 0 where
  pub columns : List (Expr × String)
  pub table : String
  pub alias : String
  pub joins : List Join
  pub conditions : List Condition
  pub order : List (Expr × Direction)
  pub limit : Option ℕ

-- A union is ordered by one of its columns, upwards.
pub data Query : Type 0 where
  select : Select → Query
  union_all : Select → Select → String → Query
  exists : Select → Query

-- An INSERT has one row, whose columns are `$1`, `$2` and so on. An upsert replaces the columns
-- that it names in the row with the same key.
pub data Write : Type 0 where
  insert : String → List String → List String → Write
  update : String → List (String × ℕ) → List Condition → Write
  upsert : String → List String → String → List String → Write

abbrev pub columns_of : String → List String → List (Expr × String)
columns_of alias names = map (λ name. (column alias name, name)) names

abbrev pub Row : Type 0
Row = String → Value

-- `GetContext` gives the first row of a query or `sql.ErrNoRows`, `SelectContext` all rows, and
-- `QueryRowContext` the columns of a RETURNING clause.
pub record Db (W : Type 0) : Type 0 where
  pub get_context : Query → List Value → Act W Row
  pub select_context : Query → List Value → Act W (List Row)
  pub query_row_context : Write → List Value → Act W Row
  pub exec_context : Write → List Value → Act W (Unit {0})
