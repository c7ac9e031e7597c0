-- ===== src/Tests/Shelf.antt =====
-- A cache of a list that keeps what is stored: the ids, once they are set, and rows by their keys.
use distributed_workflow_sys.Prelude.{
  ℕ, ◌≡◌, refl, ap, ◌∙◌, String, Option, none, some, Bool, true, false, inl, inr, Bool-cases, List,
  [], ◌∷◌, map, keep, not, All, ◌==◌, if◌then◌else◌, eq_iff,
}
use distributed_workflow_sys.Prelude.Act.{Act, ok}
use distributed_workflow_sys.Paging.Order.{page_ids}
use distributed_workflow_sys.Paging.Cached.Page.{IdsOrMiss, Split}

pub record Shelf (A : Type 0) : Type 0 where
  pub ids : Option (List String)
  pub rows : List A

abbrev pub empty_shelf : {A : Type 0} → Shelf A
empty_shelf = record { ids = none; rows = [] }

abbrev page_of : String → ℕ → Option (List String) → Option (List String)
page_of cursor limit none = none
page_of cursor limit (some ids) = some (page_ids cursor limit ids)

module _ {A : Type 0} where
  abbrev pub get_shelf_ids : ℕ → String → Act (Shelf A) (Option (List String))
  get_shelf_ids limit cursor w = (ok (page_of cursor limit w.ids), w)

  abbrev pub set_shelf_ids : List String → Act (Shelf A) (Unit {0})
  set_shelf_ids ids w = (ok tt, record w { ids = some ids })

  abbrev pub set_row : A → Act (Shelf A) (Unit {0})
  set_row a w = (ok tt, record w { rows = a ∷ w.rows })

module _ {A : Type 0} (key : A → String) where
  abbrev find_row : List A → String → Option A
  find_row [] id = none
  find_row (a ∷ rows) id = if key a == id then some a else find_row rows id

  abbrev split_at : String → Option A → List A × List String → List A × List String
  split_at id none (rows, missing) = (rows, id ∷ missing)
  split_at id (some a) (rows, missing) = (a ∷ rows, missing)

  abbrev look_up : List A → List String → List A × List String
  look_up rows [] = ([], [])
  look_up rows (id ∷ ids) = split_at id (find_row rows id) (look_up rows ids)

  abbrev pub get_rows : List String → Act (Shelf A) (List A × List String)
  get_rows ids w = (ok (look_up w.rows ids), w)

abbrev is_some : {A : Type 0} → Option A → Bool
is_some none = false
is_some (some a) = true

module _ {A : Type 0} (key : A → String) (row : String → A) (ids : List String) where
  abbrev RightIds : Option (List String) → Type 0
  RightIds none = Unit {0}
  RightIds (some l) = l ≡ ids

  -- The ids are those of the list and the rows those of the table.
  abbrev pub Right : Shelf A → Type 0
  Right w = RightIds w.ids × All (λ a. a ≡ row (key a)) w.rows

  pub page_of-IdsOrMiss :
      (limit : ℕ) (cursor : String) (o : Option (List String))
      → RightIds o
      → IdsOrMiss (page_ids cursor limit ids) (ok (page_of cursor limit o))
  page_of-IdsOrMiss limit cursor none h = tt
  page_of-IdsOrMiss limit cursor (some l) h = ap (page_ids cursor limit) h

  RowOf : String → Option A → Type 0
  RowOf id none = Unit {0}
  RowOf id (some a) = a ≡ row id

  known : List A → String → Bool
  known rows id = is_some (find_row key rows id)

  find_row-cases :
      (rows : List A) (id : String)
      → All (λ a. a ≡ row (key a)) rows
      → RowOf id (find_row key rows id)
  unfolding RowOf
  find_row-cases [] id h = tt
  find_row-cases (a ∷ rows) id h = elim (Bool-cases (key a == id)) [
    | inl same ↦ rw same (h.0 ∙ ap row ((eq_iff (key a) id).0 same))
    | inr apart ↦ rw apart (find_row-cases rows id h.1)
  ]

  split_at-keep :
      (id : String) (o : Option A) (p : String → Bool) (some_ids : List String)
      → p id ≡ is_some o
      → RowOf id o
      → split_at key id o (map row (keep p some_ids), keep (λ i. not (p i)) some_ids)
        ≡ (map row (keep p (id ∷ some_ids)), keep (λ i. not (p i)) (id ∷ some_ids))
  unfolding RowOf
  split_at-keep id none p some_ids e h = rw e refl
  split_at-keep id (some a) p some_ids e h =
      rw e (ap (λ b. (b ∷ map row (keep p some_ids), keep (λ i. not (p i)) some_ids)) h)

  look_up-keep :
      (rows : List A) (some_ids : List String)
      → All (λ a. a ≡ row (key a)) rows
      → look_up key rows some_ids
        ≡ (map row (keep (known rows) some_ids), keep (λ id. not (known rows id)) some_ids)
  unfolding known
  look_up-keep rows [] h = refl
  look_up-keep rows (id ∷ some_ids) h =
      ap (split_at key id (find_row key rows id)) (look_up-keep rows some_ids h)
      ∙ split_at-keep id (find_row key rows id) (known rows) some_ids refl
          (find_row-cases rows id h)

  pub get_rows-Split :
      (some_ids : List String) (w : Shelf A)
      → Right w
      → Split row some_ids (get_rows key some_ids w).0
  get_rows-Split some_ids w h = (known w.rows, ap ok (look_up-keep w.rows some_ids h.1))
