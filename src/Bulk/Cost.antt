-- ===== src/Bulk/Cost.antt =====
-- How many batch statements the divide-and-conquer insertion sends.
use mathlib.Core.WellFounded.{Acc}
use mathlib.Core.Logic.{dif_pos, dif_neg}
use native.Mathlib.Nat.{ℕ_set}
use distributed_workflow_sys.Prelude.{
  ℕ, ◌+◌, ◌-◌, ◌*◌, ◌/◌, ◌≤◌, inl, inr, List, [], ◌∷◌, ◌++◌, length, length-take, length-drop,
  Bool-cases, ℕ_discrete, arith,
}
use distributed_workflow_sys.Prelude.Act.{Act, Result, ok, fail, ◌>>=◌, after, pure}
use distributed_workflow_sys.Bulk.{
  Shorter, shorter_wf, split_step, split_batch, recursive, bulk, settle, is_connection_error,
  settle_local, settle_lost, left_half, right_half, Shorter-left_half, Shorter-right_half,
}

module _ {W A : Type 0} (count : W → ℕ) where
  settle-count :
      (r : Result (Unit {0}) × W) (parts : W → Result (List A) × W) (bound : ℕ)
      → count r.1 ≤ bound
      → count (parts r.1).1 ≤ bound
      → count (settle r parts).1 ≤ bound
  settle-count (ok _, w) parts bound h k = h
  settle-count (fail e, w) parts bound h k = elim (Bool-cases (is_connection_error e)) [
    | inl lost ↦ rw (settle_lost e w parts lost) h
    | inr local ↦ rw (settle_local e w parts local) k
  ]

  -- The second half is tried only if the first did not fail.
  halves-count :
      (r : Result (List A) × W) (right : Act W (List A)) (bound : ℕ)
      → count r.1 ≤ bound
      → count (right r.1).1 ≤ bound
      → count (after r (λ fl. right >>= λ fr. pure (fl ++ fr))).1 ≤ bound
  halves-count (fail e, w) right bound h k = h
  halves-count (ok fl, w) right bound h k = join (right w) k
    where
      join :
          (r : Result (List A) × W)
          → count r.1 ≤ bound
          → count (after r (λ fr. pure (fl ++ fr))).1 ≤ bound
      join (fail e, w') g = g
      join (ok fr, w') g = g

-- The statements that a batch of so many elements takes at most, once it has failed as a whole.
abbrev cost : {A : Type 0} → List A → ℕ
cost xs = 2 * length xs - 1

module _ {W A : Type 0} (batch : List A → Act W (Unit {0})) (count : W → ℕ)
    (one : (xs : List A) (w : W) → count (batch xs w).1 ≤ count w + 1) where
  split_step-cost :
      (xs : List A) (again : (ys : List A) → Shorter ys xs → Act W (List A))
      → ((ys : List A) (h : Shorter ys xs) (w : W) → count (again ys h w).1 ≤ count w + cost ys)
      → (w : W) → count (split_step batch xs again w).1 ≤ count w + cost xs
  unfolding split_step
  split_step-cost [] again ih w = omega arith
  split_step-cost (x ∷ rest) again ih w =
      let w1 = (batch (x ∷ rest) w).1 in
      let first = one (x ∷ rest) w in
      settle-count count (batch (x ∷ rest) w) _ (count w + cost (x ∷ rest)) (omega arith)
        (elim (ℕ_discrete (length rest) 0) [
          | yes single ↦ rw (dif_pos _ (ℕ_set _ _) single) (omega arith)
          | no many ↦
              let left = again (left_half (x ∷ rest)) (Shorter-left_half x rest many) in
              let right = again (right_half (x ∷ rest)) (Shorter-right_half x rest many) in
              let cost_left = ih (left_half (x ∷ rest)) (Shorter-left_half x rest many) w1 in
              let cost_right =
                ih (right_half (x ∷ rest)) (Shorter-right_half x rest many) (left w1).1 in
              rw (dif_neg _ many) (
                halves-count count (left w1) right (count w + cost (x ∷ rest))
                  (omega (arith, length-take {0} (length (x ∷ rest) / 2) (x ∷ rest)))
                  (omega (
                    arith,
                    length-take {0} (length (x ∷ rest) / 2) (x ∷ rest),
                    length-drop {0} (length (x ∷ rest) / 2) (x ∷ rest),
                  )))
        ])

  split_batch-cost :
      (xs : List A) (a : Acc Shorter xs) (w : W)
      → count (split_batch batch xs a w).1 ≤ count w + cost xs
  unfolding split_batch
  split_batch-cost xs (Acc.intro _ smaller) =
      split_step-cost xs _ (λ ys h. split_batch-cost ys (smaller ys h))

  pub bulk-cost : (xs : List A) (w : W) → count (bulk batch xs w).1 ≤ count w + 2 * length xs
  unfolding bulk recursive
  bulk-cost [] w = omega arith
  bulk-cost (x ∷ rest) w =
      let first = one (x ∷ rest) w in
      let parts =
        split_batch-cost (x ∷ rest) (shorter_wf.apply (x ∷ rest)) (batch (x ∷ rest) w).1 in
      settle-count count (batch (x ∷ rest) w) _ (count w + 2 * length (x ∷ rest)) (omega arith)
        (omega arith)
