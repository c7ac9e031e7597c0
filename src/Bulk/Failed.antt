-- ===== src/Bulk/Failed.antt =====
-- What the divide-and-conquer insertion returns against any database whatever.
use mathlib.Core.WellFounded.{Acc}
use mathlib.Core.Logic.{dif_pos, dif_neg}
use native.Mathlib.Nat.{ℕ_set}
use distributed_workflow_sys.Prelude.{
  ℕ, take, drop, ◌/◌, ◌≡◌, subst, true, inl, inr, List, [], ◌∷◌, ◌++◌, length, take-append-drop,
  Bool-cases, ℕ_discrete,
}
use distributed_workflow_sys.Prelude.Act.{Act, Result, ok, fail, ◌>>=◌, after, pure}
use distributed_workflow_sys.Bulk.{
  Shorter, shorter_wf, split_step, split_batch, recursive, bulk, settle, is_connection_error,
  settle_local, settle_lost, Shorter-left_half, Shorter-right_half,
}

-- The elements of one list stand in the other, in the same order.
pub data IsSub {A : Type 0} : List A → List A → Type 0 where
  done : IsSub [] []
  skip : {xs ys : List A} (y : A) → IsSub xs ys → IsSub xs (y ∷ ys)
  take_it : {xs ys : List A} (y : A) → IsSub xs ys → IsSub (y ∷ xs) (y ∷ ys)

module _ {A : Type 0} where
  nil-IsSub : (ys : List A) → IsSub [] ys
  nil-IsSub [] = done
  nil-IsSub (y ∷ ys) = skip y (nil-IsSub ys)

  IsSub-refl : (ys : List A) → IsSub ys ys
  IsSub-refl [] = done
  IsSub-refl (y ∷ ys) = take_it y (IsSub-refl ys)

  IsSub-append : {xs ys us vs : List A} → IsSub xs ys → IsSub us vs → IsSub (xs ++ us) (ys ++ vs)
  IsSub-append done k = k
  IsSub-append (skip y h) k = skip y (IsSub-append h k)
  IsSub-append (take_it y h) k = take_it y (IsSub-append h k)

  -- Either some of the batch comes back, in its order, or the connection was lost.
  abbrev pub Sound : List A → Result (List A) → Type 0
  Sound xs (ok failed) = IsSub failed xs
  Sound xs (fail e) = is_connection_error e ≡ true

module _ {W A : Type 0} where
  settle-Sound :
      (xs : List A) (r : Result (Unit {0}) × W) (parts : W → Result (List A) × W)
      → ((w : W) → Sound xs (parts w).0)
      → Sound xs (settle r parts).0
  settle-Sound xs (ok _, w) parts h = nil-IsSub xs
  settle-Sound xs (fail e, w) parts h = elim (Bool-cases (is_connection_error e)) [
    | inl lost ↦ rw (settle_lost e w parts lost) lost
    | inr local ↦ rw (settle_local e w parts local) (h w)
  ]

  halves-Sound :
      (ls rs : List A) (r : Result (List A) × W) (right : Act W (List A))
      → Sound ls r.0
      → ((w : W) → Sound rs (right w).0)
      → Sound (ls ++ rs) (after r (λ fl. right >>= λ fr. pure (fl ++ fr))).0
  halves-Sound ls rs (fail e, w) right h k = h
  halves-Sound ls rs (ok fl, w) right h k = join (right w) (k w)
    where
      join :
          (r : Result (List A) × W)
          → Sound rs r.0
          → Sound (ls ++ rs) (after r (λ fr. pure (fl ++ fr))).0
      join (fail e, w') g = g
      join (ok fr, w') g = IsSub-append h g

  -- The two halves of a batch, one after the other.
  split-Sound :
      (n : ℕ) (xs : List A) (r : Result (List A) × W) (right : Act W (List A))
      → Sound (take n xs) r.0
      → ((w : W) → Sound (drop n xs) (right w).0)
      → Sound xs (after r (λ fl. right >>= λ fr. pure (fl ++ fr))).0
  split-Sound n xs r right h k =
      subst (λ ys. Sound ys (after r (λ fl. right >>= λ fr. pure (fl ++ fr))).0)
        (take-append-drop n xs) (halves-Sound (take n xs) (drop n xs) r right h k)

module _ {W A : Type 0} (batch : List A → Act W (Unit {0})) where
  split_step-Sound :
      (xs : List A) (again : (ys : List A) → Shorter ys xs → Act W (List A))
      → ((ys : List A) (h : Shorter ys xs) (w : W) → Sound ys (again ys h w).0)
      → (w : W) → Sound xs (split_step batch xs again w).0
  unfolding split_step
  split_step-Sound [] again ih w = done
  split_step-Sound (x ∷ rest) again ih w = settle-Sound (x ∷ rest) (batch (x ∷ rest) w) _ λ w1.
      elim (ℕ_discrete (length rest) 0) [
        | yes single ↦ rw (dif_pos _ (ℕ_set _ _) single) (IsSub-refl (x ∷ rest))
        | no many ↦ rw (dif_neg _ many) (
            split-Sound (length (x ∷ rest) / 2) (x ∷ rest)
              (again _ (Shorter-left_half x rest many) w1)
              (again _ (Shorter-right_half x rest many)) (ih _ _ w1) (ih _ _))
      ]

  split_batch-Sound :
      (xs : List A) (a : Acc Shorter xs) (w : W) → Sound xs (split_batch batch xs a w).0
  unfolding split_batch
  split_batch-Sound xs (Acc.intro _ smaller) =
      split_step-Sound xs _ (λ ys h. split_batch-Sound ys (smaller ys h))

  -- Whatever the database answers: `bulk` returns some of the batch in its order, or it fails, and
  -- then with a connection error.
  pub bulk-Sound : (xs : List A) (w : W) → Sound xs (bulk batch xs w).0
  unfolding bulk recursive
  bulk-Sound [] w = done
  bulk-Sound (x ∷ rest) w =
      settle-Sound (x ∷ rest) (batch (x ∷ rest) w) _
        (split_batch-Sound (x ∷ rest) (shorter_wf.apply (x ∷ rest)))
