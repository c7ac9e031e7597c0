-- ===== src/Sql.antt =====
-- The statements with one row of numbered placeholders for each element, as bulkCreateBatch,
-- bulkUpdateBatch and bulkUpdateStatusBatch of
-- services/workspace-service/internal/task/repository.go build them. A statement is kept as its
-- parts: the text before and after the rows, the rows of placeholders and the argument list.
pub mod Resolve
pub mod Query
pub mod Meaning
pub mod Scan
pub mod Laws
pub mod Select
pub mod Sorted
pub mod Stored
use distributed_workflow_sys.Prelude.{
  ℕ, zero, suc, ◌+◌, ◌-◌, ◌*◌, String, Bool, Option, none, some, List, [], ◌∷◌, ◌++◌, map, eqb,
  ◌==◌, if◌then◌else◌,
}

-- An argument of a statement; `null` is SQL's NULL.
pub data Value : Type 0 where
  text : String → Value
  time : ℕ → Value
  number : ℕ → Value
  flag : Bool → Value
  null : Value

-- `$number` with the cast written behind it, if any.
pub record Placeholder : Type 0 where
  pub number : ℕ
  pub cast : String

pub record Statement : Type 0 where
  pub head : String
  pub rows : List (List Placeholder)
  pub tail : String
  pub vals : List Value

-- The text of an optional column: the empty text stands for NULL.
unfoldable pub optional_text : String → Value
optional_text s = if s == "" then null else text s

-- The zero `time.Time` stands for NULL.
unfoldable pub optional_time : ℕ → Value
optional_time t = if eqb t 0 then null else time t

-- `($n, $n+1, …)` from the first number on.
pub numbered : List String → ℕ → List Placeholder
numbered [] n = []
numbered (c ∷ cs) n = record { number = n; cast = c } ∷ numbered cs (n + 1)

module _ {A : Type 0} where
  -- The rows of elements `i`, `i + 1`, …, with `offset := i * numCols`.
  pub placeholder_rows : (num_cols : ℕ) → List String → ℕ → List A → List (List Placeholder)
  unfolding numbered
  placeholder_rows num_cols casts i [] = []
  placeholder_rows num_cols casts i (x ∷ xs) =
      numbered casts (i * num_cols + 1) ∷ placeholder_rows num_cols casts (i + 1) xs

  -- `vals = append(vals, …)` for each element.
  pub flat_vals : (A → List Value) → List A → List Value
  flat_vals row [] = []
  flat_vals row (x ∷ xs) = row x ++ flat_vals row xs

-- What the database reads at a placeholder: `$1` is the first argument.
abbrev pub get_elem? {ℓ} : {A : Type ℓ} → List A → ℕ → Option A
get_elem? [] i = none
get_elem? (x ∷ xs) zero = some x
get_elem? (x ∷ xs) (suc i) = get_elem? xs i

abbrev pub argument : List Value → Placeholder → Option Value
argument vals p = elim p.number [ zero ↦ none | suc i ↦ get_elem? vals i ]

-- The rows of values that the statement hands over.
abbrev pub resolved : Statement → List (List (Option Value))
resolved s = map (map (argument s.vals)) s.rows
