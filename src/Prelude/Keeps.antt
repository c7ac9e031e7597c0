-- ===== src/Prelude/Keeps.antt =====
-- What a returned value satisfies, and predicates of the world that an action keeps, whatever it
-- returns.
use mathlib.Core.Bool.{Bool, true, false}
use mathlib.Core.Path.{◌≡◌, refl, ap, subst}
use mathlib.Core.Logic.{◌⊎◌, inl}
use distributed_workflow_sys.Prelude.Tests.{if◌then◌else◌}
use distributed_workflow_sys.Prelude.Act.{
  Act, Error, Result, ok, fail, value_or, relabelled, after, after_cases, ◌>>=◌,
}

abbrev pub IsFail : {A : Type 0} → Result A → Type 0
IsFail (ok a) = ⊥
IsFail (fail e) = Unit {0}

module _ {W : Type 0} (P : W → Type 0) where
  abbrev pub Keeps : {A : Type 0} → Act W A → Type 0
  Keeps m = (w : W) → P w → P (m w).1

module _ {W : Type 0} {P : W → Type 0} where
  -- What follows a call keeps the predicate, if the call and all that follows do.
  pub Keeps-bind :
      {A B : Type 0} (m : Act W A) (f : A → Act W B)
      → Keeps P m
      → ((a : A) → Keeps P (f a))
      → Keeps P (m >>= f)
  Keeps-bind m f first next w h =
      after_cases (λ o. P o.1) (m w) f (λ e w' r. subst (λ o. P o.1) r (first w h))
        (λ a w' r. next a w' (subst (λ o. P o.1) r (first w h)))

  pub Keeps-if :
      {A : Type 0} (b : Bool) (m n : Act W A) → Keeps P m → Keeps P n → Keeps P (if b then m else n)
  Keeps-if true m n h k = h
  Keeps-if false m n h k = k

-- A value that is returned has the property.
abbrev pub Returns : {A : Type 0} → (A → Type 0) → Result A → Type 0
Returns R (ok a) = R a
Returns R (fail e) = Unit {0}

pub Returns-bind :
    {W A B : Type 0} (R : B → Type 0) (r : Result A × W) (f : A → Act W B)
    → ((a : A) (w : W) → r ≡ (ok a, w) → Returns R (f a w).0)
    → Returns R (after r f).0
Returns-bind R (ok a, w) f next = next a w refl
Returns-bind R (fail e, w) f next = tt

pub Returns-mono :
    {A : Type 0} {R S : A → Type 0}
    → ((a : A) → R a → S a)
    → (r : Result A) → Returns R r
    → Returns S r
Returns-mono f (ok a) h = f a h
Returns-mono f (fail e) h = tt

-- What follows a call whose value is known.
pub after-known :
    {W A B : Type 0} (r : Result A × W) (f : A → Act W B) (a : A) → r.0 ≡ ok a → after r f ≡ f a r.1
after-known (ok b, w) f a h = ap (λ o. f (value_or a o) w) h
after-known (fail e, w) f a h = absurd (subst IsFail h tt)

-- An error was returned and `P` was kept.
abbrev pub Refused : {W B : Type 0} → (W → Type 0) → Result B × W → Type 0
Refused P r = IsFail r.0 × P r.1

pub relabelled-Keeps :
    {W A : Type 0} (P : W → Type 0) (g : Error → Error) (r : Result A × W)
    → P r.1
    → P (relabelled g r).1
relabelled-Keeps P g (ok a, w) h = h
relabelled-Keeps P g (fail e, w) h = h

pub relabelled-ok :
    {W A : Type 0} (g : Error → Error) (r : Result A × W) (a : A) (w : W)
    → relabelled g r ≡ (ok a, w)
    → r.0 ≡ ok a
relabelled-ok g (ok b, v) a w h = ap (λ o. o.0) h
relabelled-ok g (fail e, v) a w h = absurd (subst (λ o. IsFail o.0) h tt)

module _ {W : Type 0} {P : W → Type 0} where
  -- A chain is refused by its first call, which keeps `P`, or goes on.
  pub Refused-bind :
      {A B : Type 0} (X : Type 0) (m : Act W A) (f : A → Act W B) (w : W)
      → Keeps P m
      → P w
      → ((a : A) (w' : W) → m w ≡ (ok a, w') → P w' → Refused P (f a w') ⊎ X)
      → Refused P ((m >>= f) w) ⊎ X
  Refused-bind X m f w kept h next =
      after_cases (λ r. Refused P r ⊎ X) (m w) f
        (λ e w' r. inl (tt, subst (λ o. P o.1) r (kept w h)))
        (λ a w' r. next a w' r (subst (λ o. P o.1) r (kept w h)))

-- A chain may be read from either end.
pub after_assoc :
    {W A B C : Type 0} (r : Result A × W) (f : A → Act W B) (g : B → Act W C)
    → after (after r f) g ≡ after r (λ a w. after (f a w) g)
after_assoc (ok a, w) f g = refl
after_assoc (fail e, w) f g = refl

-- To prove something of a choice, prove it of both sides.
pub if_cases {κ} :
    {A : Type 0} (Q : A → Type κ) (b : Bool) (x y : A)
    → (b ≡ true → Q x)
    → (b ≡ false → Q y)
    → Q (if b then x else y)
if_cases Q true x y h k = h refl
if_cases Q false x y h k = k refl

pub after-Refused :
    {W A B : Type 0} (P : W → Type 0) (r : Result A × W) (f : A → Act W B)
    → Refused P r
    → Refused P (after r f)
after-Refused P (ok a, w) f h = elim (h.0) [ ]
after-Refused P (fail e, w) f h = h

-- What succeeded after a call did so after the call had succeeded.
pub after-inv :
    {W A B : Type 0} (r : Result A × W) (f : A → Act W B) (b : B) (w' : W)
    → after r f ≡ (ok b, w')
    → (a : A) × (w : W) × (r ≡ (ok a, w)) × (f a w ≡ (ok b, w'))
after-inv (ok a, w) f b w' h = (a, w, refl, h)
after-inv (fail e, w) f b w' h = absurd (subst (λ o. IsFail o.0) h tt)

pub relabelled-inv :
    {W A : Type 0} (g : Error → Error) (r : Result A × W) (a : A) (w : W)
    → relabelled g r ≡ (ok a, w)
    → r ≡ (ok a, w)
relabelled-inv g (ok b, v) a w h = h
relabelled-inv g (fail e, v) a w h = absurd (subst (λ o. IsFail o.0) h tt)

-- A value that was computed without the world leaves it to what follows.
pub after-idle :
    {W A B : Type 0} (r : Result A) (f : A → Act W B) (w : W)
    → ((a : A) → (f a w).1 ≡ w)
    → (after (r, w) f).1 ≡ w
after-idle (ok a) f w h = h a
after-idle (fail e) f w h = refl
