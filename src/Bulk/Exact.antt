-- ===== src/Bulk/Exact.antt =====
-- What the divide-and-conquer insertion achieves against a database whose batch statement is
-- atomic and refuses a batch exactly when one of its rows is bad.
use mathlib.Core.WellFounded.{Acc}
use mathlib.Core.Logic.{dif_pos, dif_neg}
use native.Mathlib.Nat.{ℕ_set}
use distributed_workflow_sys.Prelude.{
  ℕ, ◌≡◌, refl, Bool, true, false, not, inl, inr, List, [], ◌∷◌, ◌++◌, arith, length, keep, any,
  keep-append, take-append-drop, take, drop, ◌/◌, Bool-cases, ℕ_discrete,
}
use distributed_workflow_sys.Prelude.Act.{Act, Error, Result, ok, fail, ◌>>=◌}
use distributed_workflow_sys.Bulk.{
  Shorter, shorter_wf, left_half, right_half, split_step, split_batch, bulk, is_connection_error,
  settle_local,
}

module _ {W A : Type 0} where
  -- The rows stored one after the other.
  abbrev pub store_all : (A → W → W) → List A → W → W
  store_all store [] w = w
  store_all store (x ∷ xs) w = store_all store xs (store x w)

  store_all-append :
      (store : A → W → W) (xs ys : List A) (w : W)
      → store_all store (xs ++ ys) w ≡ store_all store ys (store_all store xs w)
  store_all-append store [] ys w = refl
  store_all-append store (x ∷ xs) ys w = store_all-append store xs ys (store x w)

module _ {A : Type 0} where
  abbrev pub good : (A → Bool) → A → Bool
  good bad x = not (bad x)

  keep-bad_none : (bad : A → Bool) (xs : List A) → any bad xs ≡ false → keep bad xs ≡ []
  keep-bad_none bad [] h = refl
  keep-bad_none bad (x ∷ xs) h = ground (arith, keep-bad_none bad xs)

  keep-good_all : (bad : A → Bool) (xs : List A) → any bad xs ≡ false → keep (good bad) xs ≡ xs
  keep-good_all bad [] h = refl
  keep-good_all bad (x ∷ xs) h = ground (arith, keep-good_all bad xs)

-- A batch statement of one row or more that stores all of them, or, if some row is bad, none and
-- reports an error that is no connection error.
pub record AtomicBatch {W A : Type 0} (batch : List A → Act W (Unit {0})) (bad : A → Bool)
    (store : A → W → W) : Type 0 where
  pub accepts :
      (x : A) (xs : List A) (w : W)
      → any bad (x ∷ xs) ≡ false
      → batch (x ∷ xs) w ≡ (ok tt, store_all store (x ∷ xs) w)
  pub refuses :
      (xs : List A) (w : W)
      → any bad xs ≡ true
      → (e : Error) × (batch xs w ≡ (fail e, w)) × (is_connection_error e ≡ false)

module _ {W A : Type 0} (bad : A → Bool) (store : A → W → W) where
  -- The bad rows come back in their order, and every other row is stored in its order.
  abbrev pub Outcome : List A → W → Result (List A) × W
  Outcome xs w = (ok (keep bad xs), store_all store (keep (good bad) xs) w)

  Outcome-stored :
      (xs : List A) (w : W)
      → any bad xs ≡ false
      → ◌≡◌ {A = Result (List A) × W} (ok [], store_all store xs w) (Outcome xs w)
  Outcome-stored xs w h = rw (keep-bad_none bad xs h, keep-good_all bad xs h) refl

  Outcome-single :
      (x : A) (rest : List A) (w : W)
      → length rest ≡ 0
      → any bad (x ∷ rest) ≡ true
      → ◌≡◌ {A = Result (List A) × W} (ok (x ∷ rest), w) (Outcome (x ∷ rest) w)
  Outcome-single x [] w none_left h = ground arith
  Outcome-single x (y ∷ rest) w none_left h = absurd (omega arith)

  Outcome-join :
      (n : ℕ) (xs : List A) (w : W)
      → let ls = take n xs in
        let rs = drop n xs in
        ◌≡◌ {A = Result (List A) × W}
          (
            ok (keep bad ls ++ keep bad rs),
            store_all store (keep (good bad) rs) (store_all store (keep (good bad) ls) w),
          )
          (Outcome xs w)
  Outcome-join n xs w =
      rw
        (
          ← store_all-append store (keep (good bad) (take n xs)) (keep (good bad) (drop n xs)) w,
          ← keep-append bad (take n xs) (drop n xs),
          ← keep-append (good bad) (take n xs) (drop n xs),
          take-append-drop n xs,
        )
        refl

module _ {W A : Type 0} (batch : List A → Act W (Unit {0})) (bad : A → Bool) (store : A → W → W)
    (law : AtomicBatch batch bad store) where
  split_step-exact :
      (xs : List A) (again : (ys : List A) → Shorter ys xs → Act W (List A))
      → ((ys : List A) (h : Shorter ys xs) (w : W) → again ys h w ≡ Outcome bad store ys w)
      → (w : W) → split_step batch xs again w ≡ Outcome bad store xs w
  unfolding split_step
  split_step-exact [] again ih w = refl
  split_step-exact (x ∷ rest) again ih w = elim (Bool-cases (any bad (x ∷ rest))) [
    | inl some_bad ↦
        let (e, refused, local) = law.refuses (x ∷ rest) w some_bad in
        rw (refused, settle_local e w _ local)
          (elim (ℕ_discrete (length rest) 0) [
            | yes single ↦
                rw (dif_pos _ (ℕ_set _ _) single)
                  (Outcome-single bad store x rest w single some_bad)
            | no many ↦
                rw (dif_neg _ many, ◌>>=◌, ih (left_half (x ∷ rest)), ih (right_half (x ∷ rest)))
                  (Outcome-join bad store (length (x ∷ rest) / 2) (x ∷ rest) w)
          ])
    | inr none_bad ↦
        rw (law.accepts x rest w none_bad) (Outcome-stored bad store (x ∷ rest) w none_bad)
  ]

  split_batch-exact :
      (xs : List A) (a : Acc Shorter xs) (w : W) → split_batch batch xs a w ≡ Outcome bad store xs w
  unfolding split_batch
  split_batch-exact xs (Acc.intro _ smaller) =
      split_step-exact xs _ (λ ys h. split_batch-exact ys (smaller ys h))

  -- Against an atomic batch statement, `bulk` stores every good row, in order, and returns exactly
  -- the bad ones, in order, whatever the batch.
  pub bulk-exact : (xs : List A) (w : W) → bulk batch xs w ≡ Outcome bad store xs w
  unfolding bulk
  bulk-exact [] w = refl
  bulk-exact (x ∷ rest) w = elim (Bool-cases (any bad (x ∷ rest))) [
    | inl some_bad ↦
        let (e, refused, local) = law.refuses (x ∷ rest) w some_bad in
        rw (refused, settle_local e w _ local)
          (split_batch-exact (x ∷ rest) (shorter_wf.apply (x ∷ rest)) w)
    | inr none_bad ↦
        rw (law.accepts x rest w none_bad) (Outcome-stored bad store (x ∷ rest) w none_bad)
  ]
