-- ===== src/Task/Repository/Conflict.antt =====
-- ON CONFLICT (id, workspace_id) DO NOTHING: how PostgreSQL runs the insertion of bulkCreateBatch
-- (internal/task/repository.go) for one row of values.
use mathlib.Core.List.Memᴰ
use mathlib.Core.List.{Memᴰ}
use distributed_workflow_sys.Prelude.{
  ℕ, ◌≡◌, refl, sym, subst, String, Option, none, some, Bool, true, false, ◌&&◌, inl, inr,
  Bool-cases, List, [], ◌∷◌, ◌++◌, any, All, All-append, ◌==◌, if◌then◌else◌, put_all,
}
use distributed_workflow_sys.Sql.{Value, text, time, number, flag, null, get_elem?}

abbrev text_of : Option Value → Option String
text_of none = none
text_of (some (text s)) = some s
text_of (some (time t)) = none
text_of (some (number n)) = none
text_of (some (flag b)) = none
text_of (some null) = none

-- NULL conflicts with nothing.
abbrev same_text : Option String → Option String → Bool
same_text none o = false
same_text (some s) none = false
same_text (some s) (some t) = s == t

abbrev same_at : ℕ → List Value → List Value → Bool
same_at i row other = same_text (text_of (get_elem? row i)) (text_of (get_elem? other i))

-- The first two columns are the id and the workspace.
abbrev pub same_key : List Value → List Value → Bool
same_key row other = same_at 0 row other && same_at 1 row other

-- A row whose key is in the table is left out.
abbrev pub insert_new : List Value → List (List Value) → List (List Value)
insert_new row rows = if any (same_key row) rows then rows else rows ++ row ∷ []

-- The only row of this key that the table may hold is the given one.
abbrev pub Only : List Value → List (List Value) → Type 0
Only key rows = All (λ row. same_key key row ≡ true → row ≡ key) rows

module _ (key : List Value) where
  insert_new-keeps :
      (x row : List Value) (rows : List (List Value)) → Memᴰ x rows → Memᴰ x (insert_new row rows)
  insert_new-keeps x row rows m = elim (Bool-cases (any (same_key row) rows)) [
    | inl taken ↦ rw taken m
    | inr new ↦ rw new (Memᴰ.append_left (row ∷ []) m)
  ]

  insert_new-Only :
      (row : List Value) (rows : List (List Value))
      → (same_key key row ≡ true → row ≡ key)
      → Only key rows
      → Only key (insert_new row rows)
  insert_new-Only row rows h only = elim (Bool-cases (any (same_key row) rows)) [
    | inl taken ↦ rw taken only
    | inr new ↦
        rw new (All-append (λ r. same_key key r ≡ true → r ≡ key) rows (row ∷ []) only (h, tt))
  ]

  found-key :
      (rows : List (List Value)) → any (same_key key) rows ≡ true → Only key rows → Memᴰ key rows
  found-key [] h only = absurd (subst (λ b. if b then ⊥ else Unit {0}) h tt)
  found-key (row ∷ rows) h only = elim (Bool-cases (same_key key row)) [
    | inl same ↦ Memᴰ.head (sym (only.0 same))
    | inr apart ↦ Memᴰ.tail (found-key rows (rw apart at h) only.1)
  ]

  insert_new-Mem : (rows : List (List Value)) → Only key rows → Memᴰ key (insert_new key rows)
  insert_new-Mem rows only = elim (Bool-cases (any (same_key key) rows)) [
    | inl taken ↦ rw taken (found-key rows taken only)
    | inr new ↦ rw new (Memᴰ.append_right rows (Memᴰ.head refl))
  ]

  put_all-keeps :
      (rows table : List (List Value)) → Memᴰ key table → Memᴰ key (put_all insert_new rows table)
  put_all-keeps [] table m = m
  put_all-keeps (row ∷ rows) table m =
      put_all-keeps rows (insert_new row table) (insert_new-keeps key row table m)

  -- A row that is inserted is in the table afterwards, if no other row of its key is there or is
  -- inserted.
  pub put_all-Mem :
      (rows table : List (List Value))
      → Only key rows
      → Only key table
      → Memᴰ key rows
      → Memᴰ key (put_all insert_new rows table)
  put_all-Mem [] table fresh only m = absurd (Memᴰ.not-nil m)
  put_all-Mem (row ∷ rows) table fresh only (Memᴰ.head e) =
      put_all-keeps rows (insert_new row table)
        (subst (λ r. Memᴰ key (insert_new r table)) e (insert_new-Mem table only))
  put_all-Mem (row ∷ rows) table fresh only (Memᴰ.tail m) =
      put_all-Mem rows (insert_new row table) fresh.1 (insert_new-Only row table fresh.0 only) m
