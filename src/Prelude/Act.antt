-- ===== src/Prelude/Act.antt =====
-- Go methods as actions: a method reads and changes the world `W` and returns a value or an error.
-- A chain of `if err != nil { return err }` is a `do` block; a call whose error is only looked at
-- goes through `attempt`, one whose error is dropped through `ignore`.
use Prim.Native.Nat.{ℕ}
use Prim.Native.String.{String}
use mathlib.Core.Bool.{Bool, true, false}
use mathlib.Core.Path.{◌≡◌, refl}
use mathlib.Core.List.{List, [], ◌∷◌}

-- An `*apperror.AppError`, the driver's `sql.ErrNoRows`, or any other error by its text. The stack
-- trace that `NewAppError` records is not part of the value.
pub record AppError : Type 0 where
  pub success : Bool
  pub status_code : ℕ
  pub message : String

pub data Error : Type 0 where
  app : AppError → Error
  no_rows : Error
  other : String → Error

pub data Result (A : Type 0) : Type 0 where
  ok : A → Result A
  fail : Error → Result A

abbrev pub Act : Type 0 → Type 0 → Type 0
Act W A = W → Result A × W

module _ {W : Type 0} where
  -- What follows a call, given its outcome.
  abbrev pub after : {A B : Type 0} → Result A × W → (A → Act W B) → Result B × W
  after (ok a, w) f = f a w
  after (fail e, w) f = (fail e, w)

  -- To prove something of what follows a call, prove it for each way in which the call ended.
  pub after_cases {κ} :
      {A B : Type 0} (Q : Result B × W → Type κ) (r : Result A × W) (f : A → Act W B)
      → ((e : Error) (w : W) → r ≡ (fail e, w) → Q (fail e, w))
      → ((a : A) (w : W) → r ≡ (ok a, w) → Q (f a w))
      → Q (after r f)
  after_cases Q (ok a, w) f failed went = went a w refl
  after_cases Q (fail e, w) f failed went = failed e w refl

  infixl 5 ◌>>=◌ ◌>>◌
  abbrev pub ◌>>=◌ : {A B : Type 0} → Act W A → (A → Act W B) → Act W B
  ◌>>=◌ m f w = after (m w) f

  abbrev pub ◌>>◌ : {A B : Type 0} → Act W A → Act W B → Act W B
  m >> k = m >>= λ _. k

  abbrev pub pure : {A : Type 0} → A → Act W A
  pure a w = (ok a, w)

  abbrev pub raise : {A : Type 0} → Error → Act W A
  raise e w = (fail e, w)

  -- The result of a computation that does not look at the world.
  abbrev pub returned : {A : Type 0} → Result A → Act W A
  returned r w = (r, w)

  -- `v, err := m`: the error becomes a value.
  abbrev pub attempt : {A : Type 0} → Act W A → Act W (Result A)
  attempt m w = let (r, w') = m w in (ok r, w')

  -- `_ = m`, or an error that is only logged.
  abbrev pub ignore : {A : Type 0} → Act W A → Act W (Unit {0})
  ignore m w = let (r, w') = m w in (ok tt, w')

  -- `for _, x := range xs { m(x) }` for a body that returns no error.
  abbrev pub each : {A : Type 0} → (A → Act W (Unit {0})) → List A → Act W (Unit {0})
  each f [] = pure tt
  each f (x ∷ xs) = f x >> each f xs

module _ {W : Type 0} where
  abbrev pub relabelled : {A : Type 0} → (Error → Error) → Result A × W → Result A × W
  relabelled f (ok a, w) = (ok a, w)
  relabelled f (fail e, w) = (fail (f e), w)

  -- An error is returned under another name.
  abbrev pub relabel : {A : Type 0} → (Error → Error) → Act W A → Act W A
  relabel f m w = relabelled f (m w)

  abbrev pub when : Bool → Act W (Unit {0}) → Act W (Unit {0})
  when true m = m
  when false m = pure tt

-- The value, or what the call returns beside an error.
abbrev pub value_or : {A : Type 0} → A → Result A → A
value_or d (ok a) = a
value_or d (fail e) = d

-- `err.Error()`.
unfoldable pub error_text : Error → String
error_text (app e) = e.message
error_text no_rows = "sql: no rows in result set"
error_text (other s) = s
