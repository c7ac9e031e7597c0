-- ===== src/Paging.antt =====
-- The pages of rows by descending id that the project and workspace services share:
-- sortProjectsDesc, paginateProjectsInGo and the cursor of internal/project/service.go, with their
-- twins in internal/workspace/service.go.
pub mod Order
pub mod Walk
pub mod Cached
use distributed_workflow_sys.Prelude.{
  ℕ, String, Bool, true, List, [], ◌∷◌, take, keep, length, ltb, eqb, ◌==◌, ◌&&◌, not,
  if◌then◌else◌,
}
use distributed_workflow_sys.Prelude.TextOrder.{before}

module _ {A : Type 0} (key : A → String) where
  unfoldable pub insert_desc : A → List A → List A
  unfolding before
  insert_desc x [] = x ∷ []
  insert_desc x (y ∷ ys) = if before (key x) (key y) then y ∷ insert_desc x ys else x ∷ y ∷ ys

  -- `sort.Slice` by `ID > ID`. Elements of one id keep their order, which the code leaves open.
  unfoldable pub sort_desc : List A → List A
  unfolding insert_desc
  sort_desc [] = []
  sort_desc (x ∷ xs) = insert_desc x (sort_desc xs)

  -- `cursor == "" || x.ID < cursor`.
  unfoldable pub behind : String → A → Bool
  unfolding before
  behind cursor x = if cursor == "" then true else before (key x) cursor

  abbrev pub cut : ℕ → List A → List A
  cut limit filtered = if ltb limit (length filtered) then take limit filtered else filtered

  unfoldable pub paginate : String → ℕ → List A → List A
  unfolding behind
  paginate cursor limit xs = cut limit (keep (behind cursor) xs)

  abbrev pub last_id : List A → String
  last_id [] = ""
  last_id (x ∷ []) = key x
  last_id (x ∷ y ∷ xs) = last_id (y ∷ xs)

  -- A full page has its last id as the next cursor.
  unfoldable pub next_cursor : ℕ → List A → String
  next_cursor limit page =
      if eqb (length page) limit && ltb 0 (length page) then last_id page else ""
