-- ===== src/Sql/Laws.antt =====
-- A database that answers as PostgreSQL documents, and what scanning makes of its answers.
use distributed_workflow_sys.Prelude.{
  ℕ, suc, ◌≡◌, String, false, List, [], ◌∷◌, ◌++◌, ◌==◌, if◌then◌else◌,
}
use distributed_workflow_sys.Prelude.Act.{Act, no_rows, Result, ok, fail, after, after_cases}
use distributed_workflow_sys.Prelude.Keeps.{IsFail}
use distributed_workflow_sys.Sql.{Value}
use distributed_workflow_sys.Sql.Query.{Query, Write, insert, update, upsert, Condition, Row, Db}
use distributed_workflow_sys.Sql.Meaning.{Tables, arg, all_hold, answer}
use distributed_workflow_sys.Sql.Scan.{scan_all}

abbrev pub first_row : List Row → Result Row
first_row [] = fail no_rows
first_row (row ∷ rows) = ok row

-- The row of an INSERT: `$i`, `$(i + 1)`, … for the columns named, a default for each other.
abbrev pub inserted : List Value → ℕ → List String → Row → Row
inserted args i [] defaults name = defaults name
inserted args i (c ∷ cs) defaults name =
    if name == c then arg args i else inserted args (suc i) cs defaults name

abbrev pub assigned : List Value → List (String × ℕ) → Row → Row
assigned args [] row name = row name
assigned args ((c, i) ∷ cs) row name = if name == c then arg args i else assigned args cs row name

abbrev pub updated : List Value → List (String × ℕ) → List Condition → List Row → List Row
updated args cs conditions [] = []
updated args cs conditions (row ∷ rows) =
    (if all_hold args conditions (λ alias. row) then assigned args cs row else row)
    ∷ updated args cs conditions rows

abbrev pub written_table : Write → String
written_table (insert table columns returning) = table
written_table (update table cs conditions) = table
written_table (upsert table columns key replaced) = table

-- Every read succeeds; the tables are what it shows, and it does not change them. A row that is
-- inserted stands in its table, with the defaults of that moment; an UPDATE changes the rows that
-- meet its conditions.
pub record Answers {W : Type 0} (db : Db W) (tables : W → Tables) : Type 0 where
  pub get :
      (q : Query) (args : List Value) (w : W)
      → db.get_context q args w ≡ (first_row (answer (tables w) q args), w)
  pub select :
      (q : Query) (args : List Value) (w : W)
      → db.select_context q args w ≡ (ok (answer (tables w) q args), w)
  pub inserts :
      (table : String) (columns : List String) (args : List Value) (w w' : W)
      → db.exec_context (insert table columns []) args w ≡ (ok tt, w')
      → (defaults : Row) × (tables w' table
          ≡ tables w table ++ inserted args 1 columns defaults ∷ [])
  pub updates :
      (table : String) (cs : List (String × ℕ)) (conditions : List Condition) (args : List Value)
      (w w' : W)
      → db.exec_context (update table cs conditions) args w ≡ (ok tt, w')
      → tables w' table ≡ updated args cs conditions (tables w table)
  pub elsewhere :
      (c : Write) (args : List Value) (w : W) (table : String)
      → (table == written_table c) ≡ false
      → tables (db.exec_context c args w).1 table ≡ tables w table

after_fails :
    {W A B : Type 0} (r : Result A × W) (f : A → Act W B) → IsFail r.0 → IsFail (after r f).0
after_fails (ok a, w) f h = absurd h
after_fails (fail e, w) f h = tt

module _ {W A : Type 0} (scan : Row → Act W A) where
  -- A row that cannot be scanned fails the whole list.
  pub scan_all-fails :
      (before : List Row) (row : Row) (rows : List Row)
      → ((w : W) → IsFail (scan row w).0)
      → (w : W) → IsFail (scan_all scan (before ++ row ∷ rows) w).0
  scan_all-fails [] row rows h w = after_fails (scan row w) _ (h w)
  scan_all-fails (r ∷ before) row rows h w =
      after_cases (λ o. IsFail o.0) (scan r w) _ (λ e w' k. tt)
        (λ a w' k.
          after_fails (scan_all scan (before ++ row ∷ rows) w') _
            (scan_all-fails before row rows h w'))
