-- ===== src/Bulk.antt =====
-- The divide-and-conquer insertion that four repositories share:
-- services/workspace-service/internal/task/repository.go (BulkCreate, BulkUpdate,
-- BulkUpdateStatus and their recursive parts) and internal/user/repository.go (BulkUpsertUsers).
-- The batch statement is a parameter here; the repositories fill it in.
pub mod Exact
pub mod Failed
pub mod Cost
use mathlib.Core.WellFounded.{Acc, WellFounded}
use mathlib.Core.Logic.{dite}
use text.Mathlib.Text.{find?}
use distributed_workflow_sys.Prelude.{
  ℕ, zero, suc, ◌-◌, ◌/◌, ◌<◌, ◌≡◌, ◌≢◌, refl, String, Bool, true, false, ◌||◌, Option, none, some,
  List, [], ◌∷◌, ◌++◌, arith, length, take, drop, length-take, length-drop, if◌then◌else◌,
  ℕ_discrete,
}
use distributed_workflow_sys.Prelude.Act.{
  error_text, Act, Error, app, no_rows, other, Result, ok, fail, ◌>>=◌, ◌>>◌, pure, raise,
}

-- `strings.Contains`.
abbrev contains : String → String → Bool
contains s sub = elim (find? s sub) [ none ↦ false | some _ ↦ true ]

-- `isConnectionError` at an error that is not nil.
unfoldable pub is_connection_error : Error → Bool
unfolding error_text
is_connection_error err =
    let msg = error_text err in
    contains msg "connection refused"
    || contains msg "connection reset"
    || contains msg "driver: bad connection"
    || contains msg "broken pipe"
    || contains msg "network is unreachable"
    || contains msg "i/o timeout"
    || contains msg "EOF"

-- The recursion is on the length of the batch.
abbrev pub Shorter {ℓ} : {A : Type ℓ} → List A → List A → Type 0
Shorter xs ys = length xs < length ys

Acc-shorter {ℓ} : {A : Type ℓ} (k : ℕ) (xs : List A) → length xs < k → Acc Shorter xs
Acc-shorter zero xs h = elim h [ ]
Acc-shorter (suc k) xs h = Acc.intro xs (λ ys hy. Acc-shorter k ys (omega arith))

pub shorter_wf {ℓ} : {A : Type ℓ} → WellFounded (Shorter {A = A})
unfolding Acc-shorter
shorter_wf = record { apply = λ xs. Acc-shorter (suc (length xs)) xs (omega arith) }

module _ {ℓ} {A : Type ℓ} where
  -- `tasks[:mid]` and `tasks[mid:]` with `mid := len(tasks) / 2`.
  abbrev pub left_half : List A → List A
  left_half xs = take (length xs / 2) xs

  abbrev pub right_half : List A → List A
  right_half xs = drop (length xs / 2) xs

  pub Shorter-left_half :
      (x : A) (rest : List A) → length rest ≢ 0 → Shorter (left_half (x ∷ rest)) (x ∷ rest)
  Shorter-left_half x rest many = omega (arith, length-take (length (x ∷ rest) / 2) (x ∷ rest))

  pub Shorter-right_half :
      (x : A) (rest : List A) → length rest ≢ 0 → Shorter (right_half (x ∷ rest)) (x ∷ rest)
  Shorter-right_half x rest many = omega (arith, length-drop (length (x ∷ rest) / 2) (x ∷ rest))

module _ {W A : Type 0} where
  -- What follows a batch statement: `nil` on success, the error on a lost connection, and
  -- otherwise the attempt on parts of the batch.
  abbrev pub settle : Result (Unit {0}) × W → (W → Result (List A) × W) → Result (List A) × W
  settle (ok _, w) parts = (ok [], w)
  settle (fail err, w) parts = elim (is_connection_error err) [
    | true ↦ (fail err, w)
    | false ↦ parts w
  ]

  pub settle_local :
      (err : Error) (w : W) (parts : W → Result (List A) × W)
      → is_connection_error err ≡ false
      → settle (fail err, w) parts ≡ parts w
  settle_local err w parts local = rw (local, settle)

  pub settle_lost :
      (err : Error) (w : W) (parts : W → Result (List A) × W)
      → is_connection_error err ≡ true
      → settle (fail err, w) parts ≡ (fail err, w)
  settle_lost err w parts lost = rw (lost, settle)

module _ {W A : Type 0} (batch : List A → Act W (Unit {0})) where
  -- One call of `recursiveCreate` or of a copy: a batch of one that fails is poisonous, and a
  -- larger one is handed on in two halves.
  pub split_step : (xs : List A) → ((ys : List A) → Shorter ys xs → Act W (List A)) → Act W (List A)
  split_step [] again w = (ok [], w)
  split_step (x ∷ rest) again w = settle (batch (x ∷ rest) w) λ w1.
      dite (ℕ_discrete (length rest) 0) (λ _. (ok (x ∷ rest), w1))
        (λ many.
          (do
            failed_left ← again (left_half (x ∷ rest)) (Shorter-left_half x rest many)
            failed_right ← again (right_half (x ∷ rest)) (Shorter-right_half x rest many)
            pure (failed_left ++ failed_right))
            w1)

  pub split_batch : (xs : List A) → Acc Shorter xs → Act W (List A)
  unfolding split_step
  split_batch xs (Acc.intro _ smaller) = split_step xs (λ ys h. split_batch ys (smaller ys h))

  pub recursive : List A → Act W (List A)
  unfolding split_batch shorter_wf ℕ_discrete
  recursive xs = split_batch xs (shorter_wf.apply xs)

  -- `BulkCreate` and its copies.
  pub bulk : List A → Act W (List A)
  unfolding recursive
  bulk [] w = (ok [], w)
  bulk (x ∷ rest) w = settle (batch (x ∷ rest) w) (recursive (x ∷ rest))
