-- ===== src/Sql/Sorted.antt =====
-- The order of the rows of a query: rows in the order of a text, and those above a cursor.
use distributed_workflow_sys.Prelude.{
  ◌≡◌, refl, sym, ap, ◌∙◌, String, Bool, false, inl, inr, Bool-cases, List, [], ◌∷◌, map, keep, All,
  keep-All_of, if◌then◌else◌,
}
use distributed_workflow_sys.Prelude.TextOrder.{before, before_asym, not-before_trans}
use distributed_workflow_sys.Sql.Meaning.{insert_by, sort_by}

module _ {A B : Type 0} (f : B → B → Bool) (g : A → B) where
  insert_by-map :
      (x : A) (xs : List A)
      → insert_by f (g x) (map g xs) ≡ map g (insert_by (λ a b. f (g a) (g b)) x xs)
  unfolding insert_by
  insert_by-map x [] = refl
  insert_by-map x (y ∷ ys) = elim (Bool-cases (f (g y) (g x))) [
    | inl first ↦ rw first (ap (◌∷◌ (g y)) (insert_by-map x ys))
    | inr later ↦ rw later refl
  ]

  pub sort_by-map : (xs : List A) → sort_by f (map g xs) ≡ map g (sort_by (λ a b. f (g a) (g b)) xs)
  unfolding sort_by
  sort_by-map [] = refl
  sort_by-map (x ∷ xs) =
      ap (insert_by f (g x)) (sort_by-map xs) ∙ insert_by-map x (sort_by (λ a b. f (g a) (g b)) xs)

module _ {A : Type 0} (f g : A → A → Bool) (same : (a b : A) → f a b ≡ g a b) where
  insert_by-ext : (x : A) (xs : List A) → insert_by f x xs ≡ insert_by g x xs
  unfolding insert_by
  insert_by-ext x [] = refl
  insert_by-ext x (y ∷ ys) = rw (same y x, insert_by-ext x ys) refl

  -- Tests that agree sort alike.
  pub sort_by-ext : (xs : List A) → sort_by f xs ≡ sort_by g xs
  unfolding sort_by
  sort_by-ext [] = refl
  sort_by-ext (x ∷ xs) = ap (insert_by f x) (sort_by-ext xs) ∙ insert_by-ext x (sort_by g xs)

module _ {A : Type 0} (f : A → A → Bool) (P : A → Type 0) where
  insert_by-All : (x : A) (ys : List A) → P x → All P ys → All P (insert_by f x ys)
  unfolding insert_by
  insert_by-All x [] h k = (h, tt)
  insert_by-All x (y ∷ ys) h k = elim (Bool-cases (f y x)) [
    | inl less ↦ rw less (k.0, insert_by-All x ys h k.1)
    | inr first ↦ rw first (h, k)
  ]

  -- What holds of all rows holds of them in any order.
  pub sort_by-All : (xs : List A) → All P xs → All P (sort_by f xs)
  unfolding sort_by
  sort_by-All [] h = tt
  sort_by-All (x ∷ xs) h = insert_by-All x (sort_by f xs) h.0 (sort_by-All xs h.1)

module _ {A : Type 0} (key : A → String) where
  unfoldable pub ascending : A → A → Bool
  unfolding before
  ascending a b = before (key a) (key b)

  -- No row comes before an earlier one.
  abbrev IsAscending : List A → Type 0
  IsAscending [] = Unit {0}
  IsAscending (x ∷ xs) = All (λ y. ascending y x ≡ false) xs × IsAscending xs

  later-All :
      (x y : A) (ys : List A)
      → ascending y x ≡ false
      → All (λ z. ascending z y ≡ false) ys
      → All (λ z. ascending z x ≡ false) ys
  unfolding ascending
  later-All x y [] h k = tt
  later-All x y (z ∷ ys) h k =
      (not-before_trans (key z) (key y) (key x) k.0 h, later-All x y ys h k.1)

  insert_by-IsAscending :
      (x : A) (ys : List A) → IsAscending ys → IsAscending (insert_by ascending x ys)
  unfolding insert_by ascending
  insert_by-IsAscending x [] h = (tt, tt)
  insert_by-IsAscending x (y ∷ ys) h = elim (Bool-cases (ascending y x)) [
    | inl less ↦ rw less (
      insert_by-All ascending (λ z. ascending z y ≡ false) x ys (before_asym (key y) (key x) less)
          h.0,
      insert_by-IsAscending x ys h.1,
    )
    | inr first ↦ rw first ((first, later-All x y ys first h.0), h)
  ]

  sort_by-IsAscending : (xs : List A) → IsAscending (sort_by ascending xs)
  unfolding sort_by
  sort_by-IsAscending [] = tt
  sort_by-IsAscending (x ∷ xs) =
      insert_by-IsAscending x (sort_by ascending xs) (sort_by-IsAscending xs)

  insert_by-first :
      (x : A) (ys : List A)
      → All (λ y. ascending y x ≡ false) ys
      → insert_by ascending x ys ≡ x ∷ ys
  unfolding insert_by
  insert_by-first x [] h = refl
  insert_by-first x (y ∷ ys) h = rw (h.0) refl

  keep-insert_by :
      (p : A → Bool) (x : A) (ys : List A)
      → IsAscending ys
      → keep p (insert_by ascending x ys)
        ≡ (if p x then insert_by ascending x (keep p ys) else keep p ys)
  unfolding insert_by
  keep-insert_by p x [] h = refl
  keep-insert_by p x (y ∷ ys) h =
      let kept = keep-All_of (λ z. ascending z x ≡ false) p (y ∷ ys) in
      elim (Bool-cases (ascending y x)) [
        | inl less ↦
            rw (less, keep-insert_by p x ys h.1)
              (elim (Bool-cases (p x)) [
                | inl here ↦ rw here (elim (Bool-cases (p y)) [
                  | inl there ↦ rw (there, less) refl
                  | inr gone ↦ rw gone refl
                ])
                | inr gone ↦ rw gone refl
              ])
        | inr first ↦ rw first (elim (Bool-cases (p x)) [
          | inl here ↦
              rw here (sym (insert_by-first x _ (kept (first, later-All x y ys first h.0))))
          | inr gone ↦ rw gone refl
        ])
      ]

  -- The rows that pass a test are sorted as all rows are.
  pub keep-sort_by :
      (p : A → Bool) (xs : List A) → keep p (sort_by ascending xs) ≡ sort_by ascending (keep p xs)
  unfolding sort_by
  keep-sort_by p [] = refl
  keep-sort_by p (x ∷ xs) =
      keep-insert_by p x (sort_by ascending xs) (sort_by-IsAscending xs)
      ∙ rw (keep-sort_by p xs)
          (elim (Bool-cases (p x)) [ inl here ↦ rw here refl | inr gone ↦ rw gone refl ])
