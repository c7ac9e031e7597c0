-- ===== src/Sql/Select.antt =====
-- The rows that a query of one table selects, and what scanning them tells of the table.
use distributed_workflow_sys.Prelude.{
  ℕ, ◌≡◌, refl, sym, ap, ◌∙◌, subst, String, none, Bool, false, inl, inr, Bool-cases, List, [], ◌∷◌,
  map, keep, if◌then◌else◌,
}
use distributed_workflow_sys.Prelude.Act.{Act, Result, ok, fail, after}
use distributed_workflow_sys.Prelude.Keeps.{IsFail}
use distributed_workflow_sys.Sql.{Value, text, time, number, flag, null}
use distributed_workflow_sys.Sql.Query.{Expr, Condition, Row, select}
use distributed_workflow_sys.Sql.Meaning.{
  Tables, all_hold, answer, with_row, no_scope, shown_as, insert_by, sort_by,
}
use distributed_workflow_sys.Sql.Laws.{first_row, updated, assigned}
use distributed_workflow_sys.Sql.Scan.{as_text, as_time}

insert_by_idle : {A : Type 0} (x : A) (xs : List A) → insert_by (λ x y. false) x xs ≡ x ∷ xs
unfolding insert_by
insert_by_idle x [] = refl
insert_by_idle x (y ∷ ys) = refl

sort_by_idle : {A : Type 0} (xs : List A) → sort_by (λ x y. false) xs ≡ xs
unfolding sort_by
sort_by_idle [] = refl
sort_by_idle (x ∷ xs) = ap (insert_by (λ x y. false) x) (sort_by_idle xs) ∙ insert_by_idle x xs

pub keep-map :
    {A B : Type 0} (p : B → Bool) (f : A → B) (xs : List A)
    → keep p (map f xs) ≡ map f (keep (λ x. p (f x)) xs)
keep-map p f [] = refl
keep-map p f (x ∷ xs) = elim (Bool-cases (p (f x))) [
  | inl kept ↦ rw kept (ap (◌∷◌ (f x)) (keep-map p f xs))
  | inr dropped ↦ rw dropped (keep-map p f xs)
]

pub map-map :
    {A B C : Type 0} (g : B → C) (f : A → B) (xs : List A)
    → map g (map f xs) ≡ map (λ x. g (f x)) xs
map-map g f [] = refl
map-map g f (x ∷ xs) = ap (◌∷◌ (g (f x))) (map-map g f xs)

-- The one table of a query without joins.
abbrev pub scope_of : Row → String → Row
scope_of row = with_row no_scope "" row

pub answer-one_table :
    (tables : Tables) (columns : List (Expr × String)) (table : String)
    (conditions : List Condition) (args : List Value)
    → answer tables
        (select (record {
          columns = columns;
          table = table;
          alias = "";
          joins = [];
          conditions = conditions;
          order = [];
          limit = none;
        }))
        args
      ≡ map
          (λ row. shown_as columns (scope_of row))
          (keep (λ row. all_hold args conditions (scope_of row)) (tables table))
answer-one_table tables columns table conditions args =
    ap (map (shown_as columns)) (
      sort_by_idle (keep (all_hold args conditions) (map scope_of (tables table)))
      ∙ keep-map (all_hold args conditions) scope_of (tables table))
    ∙ map-map (shown_as columns) scope_of
        (keep (λ row. all_hold args conditions (scope_of row)) (tables table))

value_of_ok : Row → Result Row → Row
value_of_ok d (ok r) = r
value_of_ok d (fail e) = d

ok_inj : (a b : Row) → ◌≡◌ {A = Result Row} (ok a) (ok b) → a ≡ b
unfolding value_of_ok
ok_inj a b h = ap (value_of_ok a) h

-- The first row that a query shows after an UPDATE of the table is the one it showed before,
-- updated if it meets the UPDATE's conditions, provided that the UPDATE moves no row in or out of
-- the query.
pub first_row-updated :
    (p : Row → Bool) (shown : Row → Row) (args : List Value) (cs : List (String × ℕ))
    (conditions : List Condition) (rows : List Row) (row : Row)
    → ((r : Row) → p (assigned args cs r) ≡ p r)
    → first_row (map shown (keep p rows)) ≡ ok row
    → (r : Row) × (row ≡ shown r)
      × (first_row (map shown (keep p (updated args cs conditions rows)))
          ≡ ok (shown (if all_hold args conditions (λ alias. r) then assigned args cs r else r)))
first_row-updated p shown args cs conditions [] row same h = absurd (subst IsFail h tt)
first_row-updated p shown args cs conditions (r ∷ rows) row same h = elim (Bool-cases (p r)) [
  | inl found ↦ (
    r,
    ok_inj row (shown r) (sym (rw found at h)),
    elim (Bool-cases (all_hold args conditions (λ alias. r))) [
      | inl meets ↦ rw (meets, same r, found) refl
      | inr differs ↦ rw (differs, found) refl
    ],
  )
  | inr other ↦
      let (r', e, k) = first_row-updated p shown args cs conditions rows row same (rw other at h) in
      (
        r',
        e,
        elim (Bool-cases (all_hold args conditions (λ alias. r))) [
          | inl meets ↦ rw (meets, same r, other) k
          | inr differs ↦ rw (differs, other) k
        ],
      )
]

module _ {W B : Type 0} where
  -- A column that was scanned had a value of the field's type.
  pub as_text-after :
      (v : Value) (f : String → Act W B) (w w' : W) (b : B)
      → after (as_text v, w) f ≡ (ok b, w')
      → (s : String) × (v ≡ text s) × (f s w ≡ (ok b, w'))
  as_text-after (text s) f w w' b h = (s, refl, h)
  as_text-after (time t) f w w' b h = absurd (subst (λ o. IsFail o.0) h tt)
  as_text-after (number n) f w w' b h = absurd (subst (λ o. IsFail o.0) h tt)
  as_text-after (flag c) f w w' b h = absurd (subst (λ o. IsFail o.0) h tt)
  as_text-after null f w w' b h = absurd (subst (λ o. IsFail o.0) h tt)

  pub as_time-after :
      (v : Value) (f : ℕ → Act W B) (w w' : W) (b : B)
      → after (as_time v, w) f ≡ (ok b, w')
      → (t : ℕ) × (v ≡ time t) × (f t w ≡ (ok b, w'))
  as_time-after (text s) f w w' b h = absurd (subst (λ o. IsFail o.0) h tt)
  as_time-after (time t) f w w' b h = (t, refl, h)
  as_time-after (number n) f w w' b h = absurd (subst (λ o. IsFail o.0) h tt)
  as_time-after (flag c) f w w' b h = absurd (subst (λ o. IsFail o.0) h tt)
  as_time-after null f w w' b h = absurd (subst (λ o. IsFail o.0) h tt)
