-- ===== src/Paging/Walk.antt =====
-- A client that follows the cursors of a list reads every row once, in order.
use distributed_workflow_sys.Prelude.{
  ℕ, zero, suc, ◌≡◌, ◌≤◌, ◌<◌, refl, sym, ap, ◌∙◌, subst, String, Bool, true, false, inl, inr,
  Bool-cases, List, [], ◌∷◌, ◌++◌, take, drop, take-append-drop, take-short, length-take,
  length-drop, keep, keep-All, keep-All_of, length, ltb, ◌==◌, if◌then◌else◌, All, arith,
}
use distributed_workflow_sys.Prelude.Act.{Act, ok, ◌>>=◌, pure}
use distributed_workflow_sys.Prelude.Keeps.{after-known}
use distributed_workflow_sys.Prelude.TextOrder.{before, before_irrefl, before_trans, before_asym}
use distributed_workflow_sys.Paging.{behind, paginate, last_id, next_cursor}
use distributed_workflow_sys.Paging.Order.{self, paginate_lem}

module _ {W A : Type 0} (fetch : String → Act W (List A × String)) where
  -- The client: pages are read until no next cursor is given.
  unfoldable pub read_all : ℕ → String → Act W (List A)
  read_all zero cursor = pure []
  read_all (suc fuel) cursor = fetch cursor >>= λ page.
      if page.1 == "" then pure page.0 else (read_all fuel page.1 >>= λ rest. pure (page.0 ++ rest))

module _ {A : Type 0} (key : A → String) where
  -- The ids fall along the list, and none is the empty text.
  abbrev pub Falling : List A → Type 0
  Falling [] = Unit {0}
  Falling (x ∷ xs) =
      All (λ y. before (key y) (key x) ≡ true) xs × (key x == "") ≡ false × Falling xs

  last_id-All :
      (P : String → Type 0) (n : ℕ) (xs : List A)
      → n < length xs
      → All (λ x. P (key x)) xs
      → P (last_id key (take (suc n) xs))
  last_id-All P n [] r h = absurd (omega arith)
  last_id-All P zero (x ∷ xs) r h = h.0
  last_id-All P (suc n) (x ∷ []) r h = absurd (omega arith)
  last_id-All P (suc n) (x ∷ y ∷ xs) r h = last_id-All P n (y ∷ xs) (omega arith) h.1

  keep-id : (p : A → Bool) (xs : List A) → All (λ x. p x ≡ true) xs → keep p xs ≡ xs
  keep-id p [] h = refl
  keep-id p (x ∷ xs) h = rw (h.0) (ap (◌∷◌ x) (keep-id p xs h.1))

  -- Below the last id of a page of falling rows is the rest.
  keep-last_id :
      (n : ℕ) (xs : List A)
      → n < length xs
      → Falling xs
      → keep (λ x. before (key x) (last_id key (take (suc n) xs))) xs ≡ drop (suc n) xs
  keep-last_id n [] r h = absurd (omega arith)
  keep-last_id zero (x ∷ xs) r h =
      rw (before_irrefl (key x)) (keep-id (λ y. before (key y) (key x)) xs h.0)
  keep-last_id (suc n) (x ∷ []) r h = absurd (omega arith)
  keep-last_id (suc n) (x ∷ y ∷ xs) r h =
      rw
        (before_asym (last_id key (take (suc n) (y ∷ xs))) (key x)
          (last_id-All (λ k. before k (key x) ≡ true) n (y ∷ xs) (omega arith) h.0))
        (keep-last_id n (y ∷ xs) (omega arith) h.2)

  Falling-named : (xs : List A) → Falling xs → All (λ x. (key x == "") ≡ false) xs
  Falling-named [] h = tt
  Falling-named (x ∷ xs) h = (h.1, Falling-named xs h.2)

  keep-Falling : (p : A → Bool) (xs : List A) → Falling xs → Falling (keep p xs)
  keep-Falling p [] h = tt
  keep-Falling p (x ∷ xs) h = elim (Bool-cases (p x)) [
    | inl kept ↦
        rw kept
          (keep-All_of (λ y. before (key y) (key x) ≡ true) p xs h.0, h.1, keep-Falling p xs h.2)
    | inr dropped ↦ rw dropped (keep-Falling p xs h.2)
  ]

  -- Behind a cursor that is itself behind another one.
  keep-behind :
      (cursor next : String) (xs : List A)
      → behind self cursor next ≡ true
      → (next == "") ≡ false
      → keep (λ x. before (key x) next) (keep (behind key cursor) xs) ≡ keep (behind key next) xs
  unfolding behind
  keep-behind cursor next [] h k = refl
  keep-behind cursor next (x ∷ xs) h k =
      ground (arith, keep-behind cursor next xs h k, before_trans (key x) next cursor)

keep-true : {A : Type 0} (xs : List A) → keep (λ x. true) xs ≡ xs
keep-true [] = refl
keep-true (x ∷ xs) = ap (◌∷◌ x) (keep-true xs)

ltb→lt : (a b : ℕ) → ltb a b ≡ true → a < b
ltb→lt a b h = ground arith

module _ {A : Type 0} (key : A → String) (n : ℕ) where
  next_cursor-short : (xs : List A) → length xs ≤ n → next_cursor key (suc n) (take (suc n) xs) ≡ ""
  unfolding next_cursor
  next_cursor-short xs h = rw (take-short (suc n) xs (omega arith)) (ground arith)

  next_cursor-full :
      (xs : List A)
      → n < length xs
      → next_cursor key (suc n) (take (suc n) xs) ≡ last_id key (take (suc n) xs)
  unfolding next_cursor
  next_cursor-full xs h =
      let e : length (take (suc n) xs) ≡ suc n = omega (arith, length-take {0} (suc n) xs) in
      rw e (ground arith)

module _ {W A : Type 0} (key : A → String) (n : ℕ) (rows : List A) (falling : Falling key rows)
    (fetch : String → Act W (List A × String)) (I : W → Type 0)
    (fetched : (cursor : String) (w : W)
      → I w
      → ((fetch cursor w).0
          ≡ ok (
            paginate key cursor (suc n) rows,
            next_cursor key (suc n) (paginate key cursor (suc n) rows),
          ))
        × I (fetch cursor w).1) where
  rest : String → List A
  rest cursor = keep (behind key cursor) rows

  fetched-page :
      (cursor : String) (w : W)
      → I w
      → (fetch cursor w).0
        ≡ ok (take (suc n) (rest cursor), next_cursor key (suc n) (take (suc n) (rest cursor)))
  unfolding rest
  fetched-page cursor w i =
      subst (λ page. (fetch cursor w).0 ≡ ok (page, next_cursor key (suc n) page))
        (paginate_lem key cursor (suc n) rows) (fetched cursor w i).0

  rest-last :
      (cursor : String)
      → n < length (rest cursor)
      → (rest (last_id key (take (suc n) (rest cursor))) ≡ drop (suc n) (rest cursor))
        × ((last_id key (take (suc n) (rest cursor)) == "") ≡ false)
  unfolding rest behind
  rest-last cursor h =
      let r = rest cursor in
      let falls = keep-Falling key (behind key cursor) rows falling in
      let named = last_id-All key (λ k. (k == "") ≡ false) n r h (Falling-named key r falls) in
      (
        sym (
              keep-behind key cursor (last_id key (take (suc n) r)) rows
                (last_id-All key (λ k. behind self cursor k ≡ true) n r h
                  (keep-All (behind key cursor) rows))
                named)
            ∙ keep-last_id key n r h falls,
        named,
      )

  -- What follows a full page is the rest of the rows, if the next pages give what lies behind it.
  full-page :
      (fuel : ℕ) (cursor : String) (w : W)
      → I w
      → n < length (rest cursor)
      → let last = last_id key (take (suc n) (rest cursor)) in
        (read_all fetch fuel last (fetch cursor w).1).0 ≡ ok (rest last)
        → (read_all fetch (suc fuel) cursor w).0 ≡ ok (rest cursor)
  unfolding read_all
  full-page fuel cursor w i h later =
      let (same, named) = rest-last cursor h in
      ap (λ o. o.0) (after-known (fetch cursor w) _ _ (fetched-page cursor w i))
      ∙ rw (next_cursor-full key n (rest cursor) h, named)
          (ap (λ o. o.0) (after-known _ _ _ later)
            ∙ rw (same, take-append-drop (suc n) (rest cursor)) refl)

  read_all-behind :
      (fuel : ℕ) (cursor : String) (w : W)
      → I w
      → length (rest cursor) < fuel
      → (read_all fetch fuel cursor w).0 ≡ ok (rest cursor)
  unfolding read_all
  read_all-behind zero cursor w i h = absurd (omega arith)
  read_all-behind (suc fuel) cursor w i h = elim (Bool-cases (ltb n (length (rest cursor)))) [
    | inl full ↦ full-page fuel cursor w i (ground arith) (
        read_all-behind fuel (last_id key (take (suc n) (rest cursor))) (fetch cursor w).1
          (fetched cursor w i).1
          (rw ((rest-last cursor (ground arith)).0)
            (omega (arith, length-drop {0} (suc n) (rest cursor), ltb→lt _ _ full))))
    | inr short ↦
        ap (λ o. o.0) (after-known (fetch cursor w) _ _ (fetched-page cursor w i))
        ∙ rw
            (
              next_cursor-short key n (rest cursor) (ground arith),
              take-short (suc n) (rest cursor) (ground arith),
            )
            refl
  ]

  -- From the start, with as many pages as there are rows and one more.
  pub read_all_complete : (w : W) → I w → (read_all fetch (suc (length rows)) "" w).0 ≡ ok rows
  unfolding rest behind
  read_all_complete w i =
      read_all-behind (suc (length rows)) "" w i (rw (keep-true rows) (omega arith))
      ∙ ap ok (keep-true rows)
