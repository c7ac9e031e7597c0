-- ===== src/Prelude/Gives.antt =====
-- Actions whose value is known in every world of an invariant, which they keep.
use mathlib.Core.Path.{◌≡◌, refl, sym, ap, ◌∙◌, subst}
use distributed_workflow_sys.Prelude.Act.{Act, Result, ok, ◌>>=◌, ◌>>◌, pure, attempt, ignore}
use distributed_workflow_sys.Prelude.Keeps.{Keeps, after-known}

module _ {W : Type 0} (I : W → Type 0) where
  abbrev pub Gives : {A : Type 0} → A → Act W A → Type 0
  Gives a m = (w : W) → I w → ((m w).0 ≡ ok a) × I (m w).1

  pub Gives-pure : {A : Type 0} (a : A) → Gives a (pure a)
  Gives-pure a w i = (refl, i)

module _ {W : Type 0} {I : W → Type 0} where
  pub Gives-bind :
      {A B : Type 0} (a : A) (b : B) (m : Act W A) (f : A → Act W B)
      → Gives I a m
      → Gives I b (f a)
      → Gives I b (m >>= f)
  Gives-bind a b m f first next w i =
      let e = after-known (m w) f a (first w i).0 in
      let (value, kept) = next (m w).1 (first w i).1 in
      (ap (λ o. o.0) e ∙ value, subst (λ o. I o.1) (sym e) kept)

  -- What follows a call of which something is known, however it ended.
  pub Gives-attempt :
      {A B : Type 0} (P : Result A → Type 0) (b : B) (m : Act W A) (f : Result A → Act W B)
      → ((w : W) → I w → P (m w).0 × I (m w).1)
      → ((r : Result A) → P r → Gives I b (f r))
      → Gives I b (attempt m >>= f)
  Gives-attempt P b m f known next w i = next (m w).0 (known w i).0 (m w).1 (known w i).1

  pub Gives-ignore : {A : Type 0} (m : Act W A) → Keeps I m → Gives I tt (ignore m)
  Gives-ignore m kept w i = (refl, kept w i)

  pub Gives-then :
      {B : Type 0} (b : B) (m : Act W (Unit {0})) (k : Act W B)
      → Gives I tt m
      → Gives I b k
      → Gives I b (m >> k)
  Gives-then b m k first next = Gives-bind tt b m (λ _. k) first next

  pub Gives-ignore_then :
      {A B : Type 0} (b : B) (m : Act W A) (k : Act W B)
      → Keeps I m
      → Gives I b k
      → Gives I b (ignore m >> k)
  Gives-ignore_then b m k kept next = Gives-then b (ignore m) k (Gives-ignore m kept) next
