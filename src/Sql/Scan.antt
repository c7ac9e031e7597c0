-- ===== src/Sql/Scan.antt =====
-- Scanning the columns of a row into the fields of a struct, as database/sql converts them.
use distributed_workflow_sys.Prelude.{ℕ, String, Option, none, some, Bool, List, [], ◌∷◌}
use distributed_workflow_sys.Prelude.Act.{
  Act, Error, other, no_rows, Result, ok, fail, ◌>>=◌, pure, returned,
}
use distributed_workflow_sys.Sql.{Value, text, time, number, flag, null}
use distributed_workflow_sys.Sql.Query.{Row}

abbrev pub scan_failure : Error
scan_failure = other "sql: Scan error: unsupported conversion"

-- A `string`: NULL is refused.
abbrev pub as_text : Value → Result String
as_text (text s) = ok s
as_text (time t) = fail scan_failure
as_text (number n) = fail scan_failure
as_text (flag b) = fail scan_failure
as_text null = fail scan_failure

-- A `*string`: NULL is nil.
abbrev pub as_optional : Value → Result (Option String)
as_optional (text s) = ok (some s)
as_optional (time t) = fail scan_failure
as_optional (number n) = fail scan_failure
as_optional (flag b) = fail scan_failure
as_optional null = ok none

-- A `time.Time`: NULL is refused.
abbrev pub as_time : Value → Result ℕ
as_time (text s) = fail scan_failure
as_time (time t) = ok t
as_time (number n) = fail scan_failure
as_time (flag b) = fail scan_failure
as_time null = fail scan_failure

-- A `bool`.
abbrev pub as_bool : Value → Result Bool
as_bool (text s) = fail scan_failure
as_bool (time t) = fail scan_failure
as_bool (number n) = fail scan_failure
as_bool (flag b) = ok b
as_bool null = fail scan_failure

module _ {W : Type 0} where
  abbrev pub text_in : Row → String → Act W String
  text_in row name = returned (as_text (row name))

  abbrev pub optional_in : Row → String → Act W (Option String)
  optional_in row name = returned (as_optional (row name))

  abbrev pub time_in : Row → String → Act W ℕ
  time_in row name = returned (as_time (row name))

  -- All rows; the first that cannot be scanned ends it.
  abbrev pub scan_all : {A : Type 0} → (Row → Act W A) → List Row → Act W (List A)
  scan_all scan [] = pure []
  scan_all scan (row ∷ rows) = scan row >>= λ a. scan_all scan rows >>= λ rest. pure (a ∷ rest)

  -- `errors.Is(err, sql.ErrNoRows)` is answered by nil and no error.
  abbrev pub none_if_no_rows : {A : Type 0} → Result A × W → Result (Option A) × W
  none_if_no_rows (ok a, w) = (ok (some a), w)
  none_if_no_rows (fail no_rows, w) = (ok none, w)
  none_if_no_rows (fail e, w) = (fail e, w)

  abbrev pub found_or_nil : {A : Type 0} → Act W A → Act W (Option A)
  found_or_nil m w = none_if_no_rows (m w)
