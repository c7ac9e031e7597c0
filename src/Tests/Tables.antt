-- ===== src/Tests/Tables.antt =====
-- A database that answers as the library says: the world is its tables. A statement that writes has
-- no other effect; rows are created at 6.
use distributed_workflow_sys.Prelude.{
  ◌≡◌, refl, sym, ap, ◌∙◌, String, false, List, [], ◌∷◌, ◌++◌, ◌==◌, eq_refl, if◌then◌else◌,
}
use distributed_workflow_sys.Prelude.Act.{Result, ok}
use distributed_workflow_sys.Sql.{Value, time, null}
use distributed_workflow_sys.Sql.Query.{Row, Db, Write, insert, update, upsert}
use distributed_workflow_sys.Sql.Laws.{Answers, first_row, inserted, updated, written_table}
use distributed_workflow_sys.Sql.Meaning.{Tables, answer, no_row}

abbrev put : Tables → String → List Row → Tables
put w table rows name = if name == table then rows else w name

abbrev created : Row
created name = if name == "created_at" then time 6 else null

abbrev returned_row : Write → List Value → Row
returned_row (insert table columns returning) args = inserted args 1 columns created
returned_row (update table cs conditions) args = no_row
returned_row (upsert table columns key replaced) args = no_row

abbrev written : Write → List Value → Tables → Tables
written (insert table columns returning) args w =
    put w table (w table ++ inserted args 1 columns created ∷ [])
written (update table cs conditions) args w = put w table (updated args cs conditions (w table))
written (upsert table columns key replaced) args w = w

abbrev pub db : Db Tables
db = record {
  get_context = λ q args w. (first_row (answer w q args), w);
  select_context = λ q args w. (ok (answer w q args), w);
  query_row_context = λ c args w. (ok (returned_row c args), written c args w);
  exec_context = λ c args w. (ok tt, written c args w);
}

abbrev pub as_they_are : Tables → Tables
as_they_are w = w

put_same : (w : Tables) (table : String) (rows : List Row) → put w table rows table ≡ rows
put_same w table rows = rw (eq_refl table) refl

written-elsewhere :
    (c : Write) (args : List Value) (w : Tables) (table : String)
    → (table == written_table c) ≡ false
    → written c args w table ≡ w table
written-elsewhere (insert t columns returning) args w table h = rw h refl
written-elsewhere (update t cs conditions) args w table h = rw h refl
written-elsewhere (upsert t columns key replaced) args w table h = refl

pub answers : Answers db as_they_are
answers = record {
  get = λ q args w. refl;
  select = λ q args w. refl;
  inserts = λ table columns args w w' h.
      (created, ap (λ (o : Result (Unit {0}) × Tables). o.1 table) (sym h) ∙ put_same w table _);
  updates = λ table cs conditions args w w' h.
      ap (λ (o : Result (Unit {0}) × Tables). o.1 table) (sym h) ∙ put_same w table _;
  elsewhere = written-elsewhere;
}
