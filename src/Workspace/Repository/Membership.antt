-- ===== src/Workspace/Repository/Membership.antt =====
-- A member who was added is a member, with the role that was given.
use distributed_workflow_sys.Prelude.{
  ◌≡◌, refl, sym, ap, ◌∙◌, subst, String, Bool, true, false, inl, inr, Bool-cases, List, [], ◌∷◌,
  ◌++◌, map, keep, keep-append, ◌==◌, ◌&&◌, eq_refl,
}
use distributed_workflow_sys.Prelude.Act.{Act, no_rows, Result, ok, fail, after, value_or}
use mathlib.Core.List.{append-nil}
use distributed_workflow_sys.Domain.Workspace.{WorkspaceMember}
use distributed_workflow_sys.Sql.{Value, text}
use distributed_workflow_sys.Sql.Query.{Row, Db, select, exists}
use distributed_workflow_sys.Sql.Laws.{Answers, first_row, inserted}
use distributed_workflow_sys.Sql.Meaning.{Tables, all_hold, shown_as, exists_row}
use distributed_workflow_sys.Sql.Select.{answer-one_table, scope_of}
use distributed_workflow_sys.Sql.Scan.{as_bool, text_in}
use distributed_workflow_sys.Workspace.Repository.{is_member, add_member, get_member_role}
use distributed_workflow_sys.Workspace.Repository.Statements.{member_exists, role_of_member}

abbrev pub nonempty : {A : Type 0} → List A → Bool
nonempty [] = false
nonempty (x ∷ xs) = true

pub nonempty-false : {A : Type 0} (xs : List A) → nonempty xs ≡ false → xs ≡ []
nonempty-false [] h = refl
nonempty-false (x ∷ xs) h = cc

abbrev member_values : WorkspaceMember → List Value
member_values m = text m.id ∷ text m.workspace_id ∷ text m.user_id ∷ text m.role ∷ []

abbrev member_columns : List String
member_columns = "id" ∷ "workspace_id" ∷ "user_id" ∷ "role" ∷ []

-- The row of a member, with the defaults of the moment.
abbrev pub member_row : WorkspaceMember → Row → Row
member_row m defaults = inserted (member_values m) 1 member_columns defaults

abbrev member_args : String → String → List Value
member_args workspace_id user_id = text workspace_id ∷ text user_id ∷ []

-- The conditions of the two queries for a member.
abbrev pub is_row_of : String → String → Row → Bool
is_row_of workspace_id user_id row =
    all_hold (member_args workspace_id user_id) member_exists.conditions (scope_of row)

member_row-is_row_of :
    (m : WorkspaceMember) (defaults : Row)
    → is_row_of m.workspace_id m.user_id (member_row m defaults) ≡ true
member_row-is_row_of m defaults = rw (eq_refl m.workspace_id, eq_refl m.user_id) refl

member_row-other :
    (m : WorkspaceMember) (defaults : Row) (workspace_id user_id : String)
    → ((m.workspace_id == workspace_id) && (m.user_id == user_id)) ≡ false
    → is_row_of workspace_id user_id (member_row m defaults) ≡ false
member_row-other m defaults workspace_id user_id other =
    elim (Bool-cases (m.workspace_id == workspace_id)) [
      | inl here ↦ rw here (rw (rw here at other) refl)
      | inr elsewhere ↦ rw elsewhere refl
    ]

exists_row-nonempty :
    (f : Row → Row) (rows : List Row)
    → as_bool (exists_row (map f rows) "exists") ≡ ok (nonempty rows)
exists_row-nonempty f [] = refl
exists_row-nonempty f (row ∷ rows) = refl

-- The role in the first of the rows.
abbrev role_in : {W : Type 0} → List Row → Act W String
role_in [] w = (fail no_rows, w)
role_in (row ∷ rows) w = text_in row "role" w

role_in-shown :
    {W : Type 0} (rows : List Row) (w : W)
    → after
        (first_row (map (λ row. shown_as role_of_member.columns (scope_of row)) rows), w)
        (λ row. text_in row "role")
      ≡ role_in rows w
role_in-shown [] w = refl
role_in-shown (row ∷ rows) w = refl

-- The role does not depend on the world in which it is read.
role_in-still : {W : Type 0} (rows : List Row) (w w' : W) → (role_in rows w).0 ≡ (role_in rows w').0
role_in-still [] w w' = refl
role_in-still (row ∷ rows) w w' = refl

module _ {W : Type 0} (db : Db W) (tables : W → Tables) (answers : Answers db tables) where
  abbrev pub members : W → List Row
  members w = tables w "workspace_members"

  pub is_member-rows :
      (workspace_id user_id : String) (w : W)
      → is_member db workspace_id user_id w
        ≡ (ok (nonempty (keep (is_row_of workspace_id user_id) (members w))), w)
  unfolding is_member
  is_member-rows workspace_id user_id w =
      rw
        (
          answers.get (exists member_exists) (member_args workspace_id user_id) w,
          answer-one_table (tables w) member_exists.columns member_exists.table
              member_exists.conditions (member_args workspace_id user_id),
        )
        (ap (λ b. (b, w))
          (exists_row-nonempty (λ row. shown_as member_exists.columns (scope_of row))
            (keep (is_row_of workspace_id user_id) (members w))))

  pub get_member_role-rows :
      (workspace_id user_id : String) (w : W)
      → get_member_role db workspace_id user_id w
        ≡ role_in (keep (is_row_of workspace_id user_id) (members w)) w
  unfolding get_member_role
  get_member_role-rows workspace_id user_id w =
      rw
        (
          answers.get (select role_of_member) (member_args workspace_id user_id) w,
          answer-one_table (tables w) role_of_member.columns role_of_member.table
              role_of_member.conditions (member_args workspace_id user_id),
        )
        (role_in-shown (keep (is_row_of workspace_id user_id) (members w)) w)

  -- The rows of a pair of workspace and user after a member was added.
  rows_after :
      (tenant : String) (m : WorkspaceMember) (w w' : W)
      → add_member db tenant m w ≡ (ok tt, w')
      → (defaults : Row) × ((a b : String)
          → keep (is_row_of a b) (members w')
            ≡ keep (is_row_of a b) (members w) ++ keep (is_row_of a b) (member_row m defaults ∷ []))
  unfolding add_member
  rows_after tenant m w w' added =
      let (defaults, grown) =
        answers.inserts "workspace_members" member_columns (member_values m) w w' added in
      (defaults, λ a b. ap (keep (is_row_of a b)) grown ∙ keep-append (is_row_of a b) (members w) _)

  -- The one row of a user who was not a member and was added.
  pub add_member-row :
      (tenant : String) (m : WorkspaceMember) (w w' : W)
      → keep (is_row_of m.workspace_id m.user_id) (members w) ≡ []
      → add_member db tenant m w ≡ (ok tt, w')
      → (defaults : Row) × (keep (is_row_of m.workspace_id m.user_id) (members w')
          ≡ member_row m defaults ∷ [])
  add_member-row tenant m w w' none_yet added =
      let (defaults, rows_of) = rows_after tenant m w w' added in
      (
        defaults,
        rows_of m.workspace_id m.user_id ∙ rw (none_yet, member_row-is_row_of m defaults) refl,
      )

  -- Not to be found as a member is to have no row, and looking changes nothing.
  pub is_member-none :
      (workspace_id user_id : String) (w w' : W)
      → is_member db workspace_id user_id w ≡ (ok false, w')
      → (w ≡ w') × (keep (is_row_of workspace_id user_id) (members w) ≡ [])
  is_member-none workspace_id user_id w w' seen =
      let counted = sym (is_member-rows workspace_id user_id w) ∙ seen in
      (
        ap (λ (o : Result Bool × W). o.1) counted,
        nonempty-false _ (ap (λ (o : Result Bool × W). value_or true o.0) counted),
      )

  -- Over a database that answers as documented, a user who is not found to be a member of a
  -- workspace, and is then added to it without an error, is a member with the role that was given.
  -- No other role changes: the role of `b` in the workspace `a`, of which the workspace or the
  -- user differs, is what it was.
  pub add_member-get_member_role :
      (tenant : String) (m : WorkspaceMember) (a b : String) (w w1 w2 : W)
      → is_member db m.workspace_id m.user_id w ≡ (ok false, w1)
      → add_member db tenant m w1 ≡ (ok tt, w2)
      → ((m.workspace_id == a) && (m.user_id == b)) ≡ false
      → (is_member db m.workspace_id m.user_id w2 ≡ (ok true, w2))
        × (get_member_role db m.workspace_id m.user_id w2 ≡ (ok m.role, w2))
        × ((get_member_role db a b w2).0 ≡ (get_member_role db a b w1).0)
  add_member-get_member_role tenant m a b w w1 w2 seen added other =
      let (idle, none_yet) = is_member-none m.workspace_id m.user_id w w1 seen in
      let none_still =
        subst (λ v. keep (is_row_of m.workspace_id m.user_id) (members v) ≡ []) idle none_yet in
      let (d, one) = add_member-row tenant m w1 w2 none_still added in
      let (defaults, rows_of) = rows_after tenant m w1 w2 added in
      let same_rows : keep (is_row_of a b) (members w2) ≡ keep (is_row_of a b) (members w1) =
        rows_of a b ∙ rw (member_row-other m defaults a b other) (append-nil _) in
      (
        is_member-rows m.workspace_id m.user_id w2 ∙ rw one refl,
        get_member_role-rows m.workspace_id m.user_id w2 ∙ rw one refl,
        ap (λ (o : Result String × W). o.0) (get_member_role-rows a b w2)
            ∙ ap (λ rows. (role_in rows w2).0) same_rows
            ∙ role_in-still (keep (is_row_of a b) (members w1)) w2 w1
            ∙ sym (ap (λ (o : Result String × W). o.0) (get_member_role-rows a b w1)),
      )
