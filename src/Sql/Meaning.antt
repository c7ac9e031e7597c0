-- ===== src/Sql/Meaning.antt =====
-- What PostgreSQL documents of the statements: the rows that a query selects from the tables, and
-- the tables after a statement that writes. Comparison with NULL is never true; UUIDs and texts are
-- compared as texts, which is the order of UUIDs in their one spelling.
use distributed_workflow_sys.Prelude.{
  ℕ, zero, suc, String, Option, none, some, Bool, true, false, List, [], ◌∷◌, ◌++◌, map, keep, take,
  ltb, eqb, ◌==◌, if◌then◌else◌,
}
use distributed_workflow_sys.Prelude.TextOrder.{before}
use distributed_workflow_sys.Sql.{Value, text, time, number, flag, null, get_elem?}
use distributed_workflow_sys.Sql.Query.{
  Expr, column, literal, Condition, equal, below, above, JoinKind, inner, left, Join, Direction,
  asc, desc, Select, Query, select, union_all, exists, Row,
}

abbrev pub Tables : Type 0
Tables = String → List Row

-- The rows that the names of the tables stand for.
abbrev pub Scope : Type 0
Scope = String → Row

abbrev pub value_of : Scope → Expr → Value
value_of scope (column alias name) = scope alias name
value_of scope (literal s) = text s

abbrev pub same : Value → Value → Bool
same (text s) (text t) = s == t
same (time s) (time t) = eqb s t
same (number m) (number n) = eqb m n
same _ _ = false

unfoldable pub less : Value → Value → Bool
less (text s) (text t) = before s t
less (time s) (time t) = ltb s t
less (number m) (number n) = ltb m n
less _ _ = false

abbrev or_null : Option Value → Value
or_null none = null
or_null (some v) = v

-- `$1` is the first argument.
abbrev pub arg : List Value → ℕ → Value
arg args zero = null
arg args (suc i) = or_null (get_elem? args i)

abbrev pub holds : List Value → Scope → Condition → Bool
holds args scope (equal e n) = same (value_of scope e) (arg args n)
holds args scope (below e n) = less (value_of scope e) (arg args n)
holds args scope (above e n) = less (arg args n) (value_of scope e)

abbrev pub all_hold : List Value → List Condition → Scope → Bool
all_hold args [] scope = true
all_hold args (c ∷ cs) scope = if holds args scope c then all_hold args cs scope else false

abbrev pub with_row : Scope → String → Row → Scope
with_row scope alias row name = if name == alias then row else scope name

abbrev pub no_row : Row
no_row name = null

abbrev null_if_none : JoinKind → List Row → List Row
null_if_none left [] = no_row ∷ []
null_if_none left (row ∷ rows) = row ∷ rows
null_if_none inner rows = rows

-- The rows of the joined table that belong to a scope.
abbrev pub joined_rows : Tables → Join → Scope → List Row
joined_rows tables j scope = null_if_none j.kind (
    keep
      (λ row.
        let scope' = with_row scope j.alias row in
        same (value_of scope' (j.on.0)) (value_of scope' (j.on.1)))
      (tables j.table))

abbrev pub join_all : Tables → Join → List Scope → List Scope
join_all tables j [] = []
join_all tables j (scope ∷ scopes) =
    map (with_row scope j.alias) (joined_rows tables j scope) ++ join_all tables j scopes

abbrev pub joined_scopes : Tables → List Join → List Scope → List Scope
joined_scopes tables [] scopes = scopes
joined_scopes tables (j ∷ js) scopes = joined_scopes tables js (join_all tables j scopes)

-- A list in the order of a test; elements that it does not tell apart keep their order.
module _ {A : Type 0} (first : A → A → Bool) where
  unfoldable pub insert_by : A → List A → List A
  insert_by x [] = x ∷ []
  insert_by x (y ∷ ys) = if first y x then y ∷ insert_by x ys else x ∷ y ∷ ys

  unfoldable pub sort_by : List A → List A
  unfolding insert_by
  sort_by [] = []
  sort_by (x ∷ xs) = insert_by x (sort_by xs)

abbrev pub directed : Direction → Value → Value → Bool
directed asc u v = less u v
directed desc u v = less v u

abbrev pub precedes : List (Expr × Direction) → Scope → Scope → Bool
precedes [] s t = false
precedes ((e, d) ∷ es) s t =
    if directed d (value_of s e) (value_of t e)
    then true
    else if directed d (value_of t e) (value_of s e)
    then false
    else precedes es s t

abbrev pub limited : {A : Type 0} → Value → List A → List A
limited (number n) xs = take n xs
limited (text s) xs = []
limited (time t) xs = []
limited (flag b) xs = []
limited null xs = xs

abbrev pub limit_to : {A : Type 0} → List Value → Option ℕ → List A → List A
limit_to args none xs = xs
limit_to args (some n) xs = limited (arg args n) xs

abbrev pub shown_as : List (Expr × String) → Scope → Row
shown_as [] scope name = null
shown_as ((e, as_name) ∷ columns) scope name =
    if name == as_name then value_of scope e else shown_as columns scope name

abbrev pub no_scope : Scope
no_scope alias = no_row

-- The scopes that satisfy the conditions, in no order.
abbrev pub matching : Tables → Select → List Value → List Scope
matching tables q args =
    keep (all_hold args q.conditions)
      (joined_scopes tables q.joins (map (with_row no_scope q.alias) (tables q.table)))

abbrev pub selected : Tables → Select → List Value → List Row
selected tables q args =
    map (shown_as q.columns)
      (limit_to args q.limit (sort_by (precedes q.order) (matching tables q args)))

abbrev pub exists_row : List Row → Row
exists_row [] name = flag false
exists_row (row ∷ rows) name = flag true

abbrev pub answer : Tables → Query → List Value → List Row
answer tables (select q) args = selected tables q args
answer tables (union_all q r name) args =
    sort_by (λ s t. less (s name) (t name)) (selected tables q args ++ selected tables r args)
answer tables (exists q) args = exists_row (selected tables q args) ∷ []
