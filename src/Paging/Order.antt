-- ===== src/Paging/Order.antt =====
-- What sorting by descending id and cutting a page give.
use mathlib.Core.List.{map-append}
use distributed_workflow_sys.Prelude.{
  ℕ, zero, suc, ◌≡◌, refl, sym, ap, ◌∙◌, String, Bool, false, inl, inr, Bool-cases, List, [], ◌∷◌,
  ◌++◌, map, take, keep, length, ltb, All, keep-All_of, take-All, take-short, not, arith,
}
use distributed_workflow_sys.Prelude.TextOrder.{
  before, before_trans, before_total, before_asym, not-before_trans,
}
use distributed_workflow_sys.Paging.{insert_desc, sort_desc, behind, cut, paginate}

abbrev pub self : String → String
self s = s

module _ {A : Type 0} (key : A → String) where
  pub cut_lem : (limit : ℕ) (xs : List A) → cut key limit xs ≡ take limit xs
  cut_lem limit xs = elim (Bool-cases (ltb limit (length xs))) [
    | inl more ↦ rw more refl
    | inr fits ↦ rw fits (sym (take-short limit xs (ground arith)))
  ]

  pub paginate_lem :
      (cursor : String) (limit : ℕ) (xs : List A)
      → paginate key cursor limit xs ≡ take limit (keep (behind key cursor) xs)
  unfolding paginate
  paginate_lem cursor limit xs = cut_lem limit (keep (behind key cursor) xs)

module _ {A : Type 0} (key : A → String) (row : String → A)
    (named : (id : String) → key (row id) ≡ id) where
  insert_desc-map :
      (id : String) (ids : List String)
      → insert_desc key (row id) (map row ids) ≡ map row (insert_desc self id ids)
  unfolding insert_desc
  insert_desc-map id [] = refl
  insert_desc-map id (y ∷ ids) =
      rw (named id, named y)
        (elim (Bool-cases (before id y)) [
          | inl less ↦ rw less (ap (◌∷◌ (row y)) (insert_desc-map id ids))
          | inr more ↦ rw more refl
        ])

  -- Rows are sorted as their ids are.
  pub sort_desc-map :
      (ids : List String) → sort_desc key (map row ids) ≡ map row (sort_desc self ids)
  unfolding sort_desc
  sort_desc-map [] = refl
  sort_desc-map (id ∷ ids) =
      ap (insert_desc key (row id)) (sort_desc-map ids) ∙ insert_desc-map id (sort_desc self ids)

  keep-behind-map :
      (cursor : String) (ids : List String)
      → keep (behind key cursor) (map row ids) ≡ map row (keep (behind self cursor) ids)
  unfolding behind
  keep-behind-map cursor [] = refl
  keep-behind-map cursor (id ∷ ids) = rw (named id) (elim (Bool-cases (behind self cursor id)) [
    | inl here ↦ rw here (ap (◌∷◌ (row id)) (keep-behind-map cursor ids))
    | inr gone ↦ rw gone (keep-behind-map cursor ids)
  ])

  take-map : (n : ℕ) (ids : List String) → take n (map row ids) ≡ map row (take n ids)
  take-map zero ids = refl
  take-map (suc n) [] = refl
  take-map (suc n) (id ∷ ids) = ap (◌∷◌ (row id)) (take-map n ids)

  pub paginate-map :
      (cursor : String) (limit : ℕ) (ids : List String)
      → paginate key cursor limit (map row ids) ≡ map row (paginate self cursor limit ids)
  paginate-map cursor limit ids =
      paginate_lem key cursor limit (map row ids)
      ∙ ap (take limit) (keep-behind-map cursor ids)
      ∙ take-map limit (keep (behind self cursor) ids)
      ∙ ap (map row) (sym (paginate_lem self cursor limit ids))

insert_swap :
    (a b : String) (ids : List String)
    → insert_desc self a (insert_desc self b ids) ≡ insert_desc self b (insert_desc self a ids)
unfolding insert_desc
insert_swap a b [] = ground (arith, before_asym a b, before_total a b)
insert_swap a b (y ∷ ids) = ground (
  arith,
  insert_swap a b ids,
  before_asym a b,
  before_total a b,
  before_trans a b y,
  before_trans b a y,
)

sort_desc-middle :
    (xs : List String) (y : String) (ys : List String)
    → sort_desc self (xs ++ y ∷ ys) ≡ insert_desc self y (sort_desc self (xs ++ ys))
unfolding sort_desc
sort_desc-middle [] y ys = refl
sort_desc-middle (x ∷ xs) y ys =
    ap (insert_desc self x) (sort_desc-middle xs y ys) ∙ insert_swap x y (sort_desc self (xs ++ ys))

-- The ids that pass a test, and then the others, are sorted as the ids are.
pub sort_desc-parts :
    (p : String → Bool) (ids : List String)
    → sort_desc self (keep p ids ++ keep (λ id. not (p id)) ids) ≡ sort_desc self ids
unfolding sort_desc
sort_desc-parts p [] = refl
sort_desc-parts p (id ∷ ids) = elim (Bool-cases (p id)) [
  | inl in_first ↦ rw in_first (ap (insert_desc self id) (sort_desc-parts p ids))
  | inr in_second ↦ rw in_second (
      sort_desc-middle (keep p ids) id (keep (λ i. not (p i)) ids)
      ∙ ap (insert_desc self id) (sort_desc-parts p ids))
]

-- Rows that were found in two places are sorted as the page of their ids.
module _ {A : Type 0} (key : A → String) (row : String → A)
    (named : (id : String) → key (row id) ≡ id) where
  pub sort_desc-found :
      (p : String → Bool) (ids : List String)
      → sort_desc self ids ≡ ids
      → sort_desc key (map row (keep p ids) ++ map row (keep (λ id. not (p id)) ids)) ≡ map row ids
  sort_desc-found p ids sorted =
      ap (sort_desc key) (sym (map-append row (keep p ids) (keep (λ id. not (p id)) ids)))
      ∙ sort_desc-map key row named (keep p ids ++ keep (λ id. not (p id)) ids)
      ∙ ap (map row) (sort_desc-parts p ids ∙ sorted)

-- Each id stands before those that come later, or is the same.
abbrev pub IsDescending : List String → Type 0
IsDescending [] = Unit {0}
IsDescending (x ∷ xs) = All (λ y. before x y ≡ false) xs × IsDescending xs

insert_desc-first :
    (x : String) (ids : List String)
    → All (λ y. before x y ≡ false) ids
    → insert_desc self x ids ≡ x ∷ ids
unfolding insert_desc
insert_desc-first x [] h = refl
insert_desc-first x (y ∷ ids) h = rw (h.0) refl

pub sort_desc_sorted : (ids : List String) → IsDescending ids → sort_desc self ids ≡ ids
unfolding sort_desc
sort_desc_sorted [] h = refl
sort_desc_sorted (x ∷ ids) h =
    ap (insert_desc self x) (sort_desc_sorted ids h.1) ∙ insert_desc-first x ids h.0

insert_desc-All :
    (P : String → Type 0) (x : String) (ids : List String)
    → P x
    → All P ids
    → All P (insert_desc self x ids)
unfolding insert_desc
insert_desc-All P x [] h k = (h, tt)
insert_desc-All P x (y ∷ ids) h k = elim (Bool-cases (before x y)) [
  | inl less ↦ rw less (k.0, insert_desc-All P x ids h k.1)
  | inr first ↦ rw first (h, k)
]

lower-All :
    (x y : String) (ids : List String)
    → before x y ≡ false
    → All (λ z. before y z ≡ false) ids
    → All (λ z. before x z ≡ false) ids
lower-All x y [] h k = tt
lower-All x y (z ∷ ids) h k = (not-before_trans x y z h k.0, lower-All x y ids h k.1)

insert_desc-IsDescending :
    (x : String) (ids : List String) → IsDescending ids → IsDescending (insert_desc self x ids)
unfolding insert_desc
insert_desc-IsDescending x [] h = (tt, tt)
insert_desc-IsDescending x (y ∷ ids) h = elim (Bool-cases (before x y)) [
  | inl less ↦ rw less (
    insert_desc-All (λ z. before y z ≡ false) x ids (before_asym x y less) h.0,
    insert_desc-IsDescending x ids h.1,
  )
  | inr first ↦ rw first ((first, lower-All x y ids first h.0), h)
]

sort_desc-All : (P : String → Type 0) (ids : List String) → All P ids → All P (sort_desc self ids)
unfolding sort_desc
sort_desc-All P [] h = tt
sort_desc-All P (x ∷ ids) h = insert_desc-All P x (sort_desc self ids) h.0 (sort_desc-All P ids h.1)

pub sort_desc-IsDescending : (ids : List String) → IsDescending (sort_desc self ids)
unfolding sort_desc
sort_desc-IsDescending [] = tt
sort_desc-IsDescending (x ∷ ids) =
    insert_desc-IsDescending x (sort_desc self ids) (sort_desc-IsDescending ids)

keep-IsDescending :
    (p : String → Bool) (ids : List String) → IsDescending ids → IsDescending (keep p ids)
keep-IsDescending p [] h = tt
keep-IsDescending p (x ∷ ids) h = elim (Bool-cases (p x)) [
  | inl here ↦
      rw here (keep-All_of (λ y. before x y ≡ false) p ids h.0, keep-IsDescending p ids h.1)
  | inr gone ↦ rw gone (keep-IsDescending p ids h.1)
]

take-IsDescending : (n : ℕ) (ids : List String) → IsDescending ids → IsDescending (take n ids)
take-IsDescending zero ids h = tt
take-IsDescending (suc n) [] h = tt
take-IsDescending (suc n) (x ∷ ids) h =
    (take-All (λ y. before x y ≡ false) n ids h.0, take-IsDescending n ids h.1)

-- A page of a sorted list is sorted.
pub paginate-IsDescending :
    (cursor : String) (limit : ℕ) (ids : List String)
    → IsDescending ids
    → IsDescending (paginate self cursor limit ids)
paginate-IsDescending cursor limit ids h =
    rw (paginate_lem self cursor limit ids)
      (take-IsDescending limit _ (keep-IsDescending (behind self cursor) ids h))

-- The ids of a page of a list of ids, latest first.
abbrev pub page_ids : String → ℕ → List String → List String
page_ids cursor limit ids = paginate self cursor limit (sort_desc self ids)

pub sort_desc-page_ids :
    (cursor : String) (limit : ℕ) (ids : List String)
    → sort_desc self (page_ids cursor limit ids) ≡ page_ids cursor limit ids
sort_desc-page_ids cursor limit ids =
    sort_desc_sorted (page_ids cursor limit ids)
      (paginate-IsDescending cursor limit (sort_desc self ids) (sort_desc-IsDescending ids))

pub page_ids-All :
    (P : String → Type 0) (cursor : String) (limit : ℕ) (ids : List String)
    → All P ids
    → All P (page_ids cursor limit ids)
page_ids-All P cursor limit ids h =
    rw (paginate_lem self cursor limit (sort_desc self ids))
      (take-All P limit _ (keep-All_of P (behind self cursor) _ (sort_desc-All P ids h)))
