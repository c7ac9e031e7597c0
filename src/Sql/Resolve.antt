-- ===== src/Sql/Resolve.antt =====
-- Placeholder numbers and arguments fit together.
use mathlib.Core.List.{append_assoc}
use distributed_workflow_sys.Prelude.{
  ℕ, suc, ◌+◌, ◌*◌, ◌≡◌, refl, sym, ap₂, subst, String, some, List, [], ◌∷◌, ◌++◌, map, arith,
  length, length-append,
}
use distributed_workflow_sys.Sql.{Value, numbered, placeholder_rows, flat_vals, get_elem?, argument}

get_elem?-append {ℓ} :
    {A : Type ℓ} (pre post : List A) (a : A) → get_elem? (pre ++ a ∷ post) (length pre) ≡ some a
get_elem?-append [] post a = refl
get_elem?-append (x ∷ pre) post a = get_elem?-append pre post a

argument-numbered :
    (casts : List String) (row pre post : List Value) (n : ℕ)
    → length casts ≡ length row
    → n ≡ suc (length pre)
    → map (argument (pre ++ (row ++ post))) (numbered casts n) ≡ map some row
unfolding numbered
argument-numbered [] [] pre post n same e = refl
argument-numbered [] (v ∷ row) pre post n same e = absurd (omega arith)
argument-numbered (c ∷ cs) [] pre post n same e = absurd (omega arith)
argument-numbered (c ∷ cs) (v ∷ row) pre post n same e =
    ap₂ (λ a as'. a ∷ as') (rw e (get_elem?-append pre (row ++ post) v))
      (subst (λ l. map (argument l) (numbered cs (n + 1)) ≡ map some row)
        (append_assoc pre (v ∷ []) (row ++ post))
        (argument-numbered cs row (pre ++ v ∷ []) post (n + 1) (omega arith)
          (omega (arith, length-append pre (v ∷ [])))))

module _ {A : Type 0} (casts : List String) (row : A → List Value)
    (fits : (x : A) → length (row x) ≡ length casts) where
  rows-resolved :
      (xs : List A) (i : ℕ) (pre : List Value)
      → length pre ≡ i * length casts
      → map (map (argument (pre ++ flat_vals row xs))) (placeholder_rows (length casts) casts i xs)
        ≡ map (λ x. map some (row x)) xs
  unfolding placeholder_rows flat_vals
  rows-resolved [] i pre h = refl
  rows-resolved (x ∷ xs) i pre h =
      ap₂ (λ a as'. a ∷ as')
        (argument-numbered casts (row x) pre (flat_vals row xs) _ (sym (fits x)) (omega arith))
        (subst
          (λ l.
            map (map (argument l)) (placeholder_rows (length casts) casts (i + 1) xs)
            ≡ map (λ y. map some (row y)) xs)
          (append_assoc pre (row x) (flat_vals row xs))
          (rows-resolved xs (i + 1) (pre ++ row x)
            (omega (arith, length-append pre (row x), fits x))))

  -- The database reads, row for row and column for column, the values of the elements.
  pub placeholder_rows-resolved :
      (xs : List A)
      → map (map (argument (flat_vals row xs))) (placeholder_rows (length casts) casts 0 xs)
        ≡ map (λ x. map some (row x)) xs
  placeholder_rows-resolved xs = rows-resolved xs 0 [] (omega arith)
