-- ===== src/Prelude/TextOrder.antt =====
-- Go's `<` on texts, which compares byte by byte, is a strict total order.
use Prim.Native.Nat.{ℕ, Ordering, compare as compare_ℕ}
use Prim.Native.Char.{Char, code}
use Prim.Native.String.compare as clause
use Prim.Native.String.{String, [], ◌∷◌, then, compare}
use mathlib.Core.Path.{◌≡◌, refl, sym, ap₂, ◌∙◌}
use mathlib.Core.Bool.{Bool, true, false}
use native.Mathlib.Omega.{arith}
use text.Mathlib.TextEquality.{codes_equal}
use text.Mathlib.TextPositions.{compare_refl}
use mathlib.Core.Logic.{inl, inr}
use distributed_workflow_sys.Prelude.Tests.{Bool-cases}

abbrev is_lt : Ordering → Bool
is_lt Ordering.lt = true
is_lt Ordering.eq = false
is_lt Ordering.gt = false

-- `s < t`.
unfoldable pub before : String → String → Bool
before s t = is_lt (compare s t)

before-nil : (s : String) → before s [] ≡ false
unfolding before
before-nil [] = refl
before-nil (c ∷ s) = rw (clause.cons-nil c s)

before-nil-cons : (c : Char) (s : String) → before [] (c ∷ s) ≡ true
unfolding before
before-nil-cons c s = rw (clause.nil-cons c s)

before-cons :
    (c d : Char) (s t : String)
    → before (c ∷ s) (d ∷ t) ≡ is_lt (then (compare_ℕ (code c) (code d)) (compare s t))
unfolding before
before-cons c d s t = rw (clause.cons-cons c d s t)

then-lt_trans :
    (a b c : ℕ) (p q r : Ordering)
    → (is_lt p ≡ true → is_lt q ≡ true → is_lt r ≡ true)
    → is_lt (then (compare_ℕ a b) p) ≡ true
    → is_lt (then (compare_ℕ b c) q) ≡ true
    → is_lt (then (compare_ℕ a c) r) ≡ true
then-lt_trans a b c p q r h = ground arith

then-lt_total :
    (a b : ℕ) (p q : Ordering)
    → is_lt (then (compare_ℕ a b) p) ≡ false
    → is_lt (then (compare_ℕ b a) q) ≡ false
    → (compare_ℕ a b ≡ Ordering.eq) × (is_lt p ≡ false) × (is_lt q ≡ false)
then-lt_total a b p q = ground arith

pub before_irrefl : (s : String) → before s s ≡ false
unfolding before
before_irrefl s = rw (compare_refl s)

pub before_trans : (s t u : String) → before s t ≡ true → before t u ≡ true → before s u ≡ true
unfolding before
before_trans s [] u h k = cc (before-nil s)
before_trans s (d ∷ t) [] h k = cc (before-nil (d ∷ t))
before_trans [] (d ∷ t) (e ∷ u) h k = before-nil-cons e u
before_trans (c ∷ s) (d ∷ t) (e ∷ u) h k =
    before-cons c e s u
    ∙ then-lt_trans (code c) (code d) (code e) (compare s t) (compare t u) (compare s u)
        (before_trans s t u) (sym (before-cons c d s t) ∙ h) (sym (before-cons d e t u) ∙ k)

pub before_total : (s t : String) → before s t ≡ false → before t s ≡ false → s ≡ t
unfolding before
before_total [] [] h k = refl
before_total [] (d ∷ t) h k = cc (before-nil-cons d t)
before_total (c ∷ s) [] h k = cc (before-nil-cons c s)
before_total (c ∷ s) (d ∷ t) h k =
    let (e, p, q) =
      then-lt_total (code c) (code d) (compare s t) (compare t s) (sym (before-cons c d s t) ∙ h)
        (sym (before-cons d c t s) ∙ k) in
    ap₂ ◌∷◌ (codes_equal c d e) (before_total s t p q)

pub before_asym : (s t : String) → before s t ≡ true → before t s ≡ false
before_asym s t h = elim (Bool-cases (before t s)) [
  | inl both ↦ cc (before_trans s t s h both, before_irrefl s)
  | inr no_more ↦ no_more
]

-- `before x y ≡ false` reads: `y` is not above `x`; this is transitive.
pub not-before_trans :
    (x y z : String) → before x y ≡ false → before y z ≡ false → before x z ≡ false
not-before_trans x y z h k = elim (Bool-cases (before x z)) [
  | inl less ↦ ground (arith, before_trans x z y, before_total z y, before_total y x)
  | inr done_here ↦ done_here
]
