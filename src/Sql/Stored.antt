-- ===== src/Sql/Stored.antt =====
-- What a query gives of a table whose rows are those of a list of structs.
use distributed_workflow_sys.Prelude.{
  ℕ, zero, suc, ◌≡◌, refl, ap, ◌∙◌, Option, none, some, List, [], ◌∷◌, map, keep, take,
}
use distributed_workflow_sys.Prelude.Act.{Act, ok}
use distributed_workflow_sys.Sql.{Value, text, time, number, flag, null}
use distributed_workflow_sys.Sql.Query.{Row, Select}
use distributed_workflow_sys.Sql.Meaning.{
  Tables, Scope, arg, all_hold, with_row, no_scope, limited, limit_to, precedes, sort_by, selected,
  shown_as, joined_scopes,
}
use distributed_workflow_sys.Sql.Scan.{scan_all}
use distributed_workflow_sys.Sql.Select.{keep-map, map-map}
use distributed_workflow_sys.Sql.Sorted.{sort_by-map}

module _ {A B : Type 0} (f : A → B) where
  take-map : (n : ℕ) (xs : List A) → take n (map f xs) ≡ map f (take n xs)
  take-map zero xs = refl
  take-map (suc n) [] = refl
  take-map (suc n) (x ∷ xs) = ap (◌∷◌ (f x)) (take-map n xs)

  limited-map : (v : Value) (xs : List A) → limited v (map f xs) ≡ map f (limited v xs)
  limited-map (number n) xs = take-map n xs
  limited-map (text s) xs = refl
  limited-map (time t) xs = refl
  limited-map (flag b) xs = refl
  limited-map null xs = refl

  limit_to-map :
      (args : List Value) (limit : Option ℕ) (xs : List A)
      → limit_to args limit (map f xs) ≡ map f (limit_to args limit xs)
  limit_to-map args none xs = refl
  limit_to-map args (some n) xs = limited-map (arg args n) xs

module _ {A : Type 0} (row : A → Row) (q : Select) (args : List Value) where
  abbrev pub scope : A → Scope
  scope a = with_row no_scope q.alias (row a)

  -- The structs whose rows a query of one table selects, in its order.
  abbrev pub chosen : List A → List A
  chosen xs = limit_to args q.limit (
      sort_by (λ a b. precedes q.order (scope a) (scope b))
        (keep (λ a. all_hold args q.conditions (scope a)) xs))

  pub selected-chosen :
      (tables : Tables) (xs : List A)
      → q.joins ≡ []
      → tables q.table ≡ map row xs
      → selected tables q args ≡ map (λ a. shown_as q.columns (scope a)) (chosen xs)
  selected-chosen tables xs one here =
      ap
        (λ scopes. map (shown_as q.columns) (
          limit_to args q.limit
            (sort_by (precedes q.order) (keep (all_hold args q.conditions) scopes))))
        (ap (λ js. joined_scopes tables js (map (with_row no_scope q.alias) (tables q.table))) one
          ∙ ap (map (with_row no_scope q.alias)) here
          ∙ map-map (with_row no_scope q.alias) row xs)
      ∙ ap
          (λ scopes.
            map (shown_as q.columns) (limit_to args q.limit (sort_by (precedes q.order) scopes)))
          (keep-map (all_hold args q.conditions) scope xs)
      ∙ ap (λ scopes. map (shown_as q.columns) (limit_to args q.limit scopes))
          (sort_by-map (precedes q.order) scope _)
      ∙ ap (map (shown_as q.columns)) (limit_to-map scope args q.limit _)
      ∙ map-map (shown_as q.columns) scope _

module _ {W A : Type 0} (scan : Row → Act W A) (shown : A → Row)
    (read : (a : A) (w : W) → scan (shown a) w ≡ (ok a, w)) where
  -- Rows that show structs are scanned as them.
  pub scan_all-shown : (xs : List A) (w : W) → scan_all scan (map shown xs) w ≡ (ok xs, w)
  scan_all-shown [] w = refl
  scan_all-shown (x ∷ xs) w = rw (read x w, scan_all-shown xs w) refl
