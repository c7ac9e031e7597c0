-- ===== src/Paging/Cached/Page.antt =====
-- The page that a cached list gives, from the cache or from the table.
use mathlib.Core.List.{append_assoc, append-nil}
use distributed_workflow_sys.Prelude.{
  ℕ, ◌≡◌, refl, sym, ap, ap₂, ◌∙◌, subst, String, Option, none, some, Bool, not, List, [], ◌∷◌,
  ◌++◌, map, keep, keep-All_of, All,
}
use distributed_workflow_sys.Prelude.Act.{Result, ok, fail, ◌>>◌, pure, ignore, each, value_or}
use distributed_workflow_sys.Prelude.Keeps.{Keeps}
use distributed_workflow_sys.Prelude.Gives.{
  Gives, Gives-bind, Gives-attempt, Gives-pure, Gives-ignore, Gives-then, Gives-ignore_then,
}
use distributed_workflow_sys.Paging.Order.{
  self, page_ids, sort_desc-page_ids, page_ids-All, sort_desc-map, paginate-map, sort_desc-found,
}
use distributed_workflow_sys.Paging.{sort_desc, paginate}
use distributed_workflow_sys.Paging.Cached.{
  Source, from_table, add_found, fetch_missing, with_metas, from_ids, by_ids, cached_list,
}

-- What a look at the cached ids may give: the page of the ids, nothing or an error.
abbrev pub IdsOrMiss : List String → Result (Option (List String)) → Type 0
IdsOrMiss page (ok (some ids)) = ids ≡ page
IdsOrMiss page (ok none) = Unit {0}
IdsOrMiss page (fail e) = Unit {0}

-- The cached rows of some of the ids, and the other ids.
abbrev pub Split :
    {A : Type 0} → (String → A) → List String → Result (List A × List String) → Type 0
Split row ids r = (p : String → Bool) × (r ≡ ok (map row (keep p ids), keep (λ id. not (p id)) ids))

-- The operations of the source cut and sort rows by descending keys.
pub record Lists {W A : Type 0} (src : Source W A) (row : String → A) (ids : List String)
    : Type 0 where
  pub paged :
      (limit : ℕ) (cursor : String)
      → src.page (map row ids) cursor limit
        ≡ paginate src.key cursor limit (sort_desc src.key (map row ids))
  pub sorts : (rows : List A) → src.sort rows ≡ sort_desc src.key rows

-- The table and the cache agree on a list: `row` is the table, `ids` are the ids of the rows that
-- one bulk read gives. The cache may miss anything, but what it holds is right, and it stays so
-- when the ids of the list and rows of the table are stored.
pub record Agrees {W A : Type 0} (src : Source W A) (I : W → Type 0) (row : String → A)
    (ids : List String) : Type 0 where
  pub named : (id : String) → src.key (row id) ≡ id
  pub load : Gives I (map row ids) src.load
  pub cached :
      (limit : ℕ) (cursor : String) (w : W)
      → I w
      → IdsOrMiss (page_ids cursor limit ids) (src.cached_ids limit cursor w).0
        × I (src.cached_ids limit cursor w).1
  pub metas :
      (some_ids : List String) (w : W)
      → I w
      → Split row some_ids (src.get_metas some_ids w).0 × I (src.get_metas some_ids w).1
  pub found : All (λ id. Gives I (some (row id)) (src.find id)) ids
  pub set_meta : (id : String) → Keeps I (src.set_meta (row id))
  pub store_ids : Keeps I (src.store_ids ids)

module _ {W A : Type 0} (src : Source W A) (I : W → Type 0) (row : String → A) (ids : List String)
    (lists : Lists src row ids) (agrees : Agrees src I row ids) where
  Found : String → Type 0
  Found id = Gives I (some (row id)) (src.find id)

  keys : (some_ids : List String) → map src.key (map row some_ids) ≡ some_ids
  keys [] = refl
  keys (id ∷ some_ids) = ap₂ (λ a as'. a ∷ as') (agrees.named id) (keys some_ids)

  store_metas-Gives :
      (some_ids : List String) → Gives I tt (each (λ a. ignore (src.set_meta a)) (map row some_ids))
  store_metas-Gives [] = λ w i. (refl, i)
  store_metas-Gives (id ∷ some_ids) =
      Gives-bind tt tt (ignore (src.set_meta (row id)))
        (λ _. each (λ a. ignore (src.set_meta a)) (map row some_ids))
        (Gives-ignore (src.set_meta (row id)) (agrees.set_meta id)) (store_metas-Gives some_ids)

  store_ids-Keeps : Keeps I (src.store_ids (map src.key (map row ids)))
  store_ids-Keeps = subst (λ l. Keeps I (src.store_ids l)) (sym (keys ids)) agrees.store_ids

  from_table-Gives :
      (limit : ℕ) (cursor : String)
      → Gives I (map row (page_ids cursor limit ids)) (from_table src limit cursor)
  unfolding from_table
  from_table-Gives limit cursor =
      let answer = src.page (map row ids) cursor limit in
      let store = src.store_ids (map src.key (map row ids)) in
      Gives-bind (map row ids) _ src.load _ agrees.load (
        Gives-then _ (each (λ a. ignore (src.set_meta a)) (map row ids))
          (ignore store >> pure answer) (store_metas-Gives ids)
          (Gives-ignore_then _ store (pure answer) store_ids-Keeps (
            subst (λ l. Gives I l (pure answer))
              (lists.paged limit cursor
                ∙ ap (paginate src.key cursor limit) (sort_desc-map src.key row agrees.named ids)
                ∙ paginate-map src.key row agrees.named cursor limit (sort_desc self ids))
              (Gives-pure I answer))))

  fetch_missing-Gives :
      (missing_ids : List String) (rows : List A)
      → All Found missing_ids
      → Gives I (rows ++ map row missing_ids) (fetch_missing src missing_ids rows)
  unfolding fetch_missing Found
  fetch_missing-Gives [] rows h =
      subst (λ l. Gives I l (pure rows)) (sym (append-nil rows)) (Gives-pure I rows)
  fetch_missing-Gives (id ∷ missing_ids) rows h = Gives-bind (some (row id)) _ (src.find id) _ h.0 (
      Gives-bind (rows ++ row id ∷ []) _ (add_found src (some (row id)) rows)
        (λ found_rows. fetch_missing src missing_ids found_rows)
        (Gives-ignore_then _ (src.set_meta (row id)) (pure (rows ++ row id ∷ []))
          (agrees.set_meta id) (Gives-pure I (rows ++ row id ∷ [])))
        (subst (λ l. Gives I l (fetch_missing src missing_ids (rows ++ row id ∷ [])))
          (append_assoc rows (row id ∷ []) (map row missing_ids))
          (fetch_missing-Gives missing_ids (rows ++ row id ∷ []) h.1)))

  with_metas-Gives :
      (p : String → Bool) (some_ids : List String)
      → sort_desc self some_ids ≡ some_ids
      → All Found some_ids
      → Gives I
          (map row some_ids)
          (with_metas src (map row (keep p some_ids), keep (λ id. not (p id)) some_ids))
  unfolding with_metas
  with_metas-Gives p some_ids sorted h =
      let missing_ids = keep (λ id. not (p id)) some_ids in
      let rows = map row (keep p some_ids) ++ map row missing_ids in
      Gives-bind rows _ (fetch_missing src missing_ids (map row (keep p some_ids)))
        (λ found. pure (src.sort found))
        (fetch_missing-Gives missing_ids (map row (keep p some_ids))
          (keep-All_of Found (λ id. not (p id)) some_ids h))
        (subst (λ l. Gives I l (pure (src.sort rows)))
          (lists.sorts rows ∙ sort_desc-found src.key row agrees.named p some_ids sorted)
          (Gives-pure I (src.sort rows)))

  from_ids-Gives :
      (some_ids : List String)
      → sort_desc self some_ids ≡ some_ids
      → All Found some_ids
      → Gives I (map row some_ids) (from_ids src some_ids)
  unfolding from_ids
  from_ids-Gives [] sorted h = Gives-pure I []
  from_ids-Gives (id ∷ some_ids) sorted h =
      Gives-attempt (Split row (id ∷ some_ids)) _ (src.get_metas (id ∷ some_ids))
        (λ metas. with_metas src (value_or ([], []) metas)) (agrees.metas (id ∷ some_ids))
        λ r split.
          subst
            (λ metas. Gives I (map row (id ∷ some_ids)) (with_metas src (value_or ([], []) metas)))
            (sym split.1) (with_metas-Gives split.0 (id ∷ some_ids) sorted h)

  by_ids-Gives :
      (limit : ℕ) (cursor : String) (r : Result (Option (List String)))
      → IdsOrMiss (page_ids cursor limit ids) r
      → Gives I (map row (page_ids cursor limit ids)) (by_ids src limit cursor (value_or none r))
  unfolding by_ids Found
  by_ids-Gives limit cursor (ok (some found_ids)) same =
      subst (λ l. Gives I (map row (page_ids cursor limit ids)) (from_ids src l)) (sym same)
        (from_ids-Gives (page_ids cursor limit ids) (sort_desc-page_ids cursor limit ids)
          (page_ids-All Found cursor limit ids agrees.found))
  by_ids-Gives limit cursor (ok none) h = from_table-Gives limit cursor
  by_ids-Gives limit cursor (fail e) h = from_table-Gives limit cursor

  pub cached_list-Gives :
      (limit : ℕ) (cursor : String)
      → Gives I (map row (page_ids cursor limit ids)) (cached_list src limit cursor)
  unfolding cached_list
  cached_list-Gives limit cursor =
      Gives-attempt (IdsOrMiss (page_ids cursor limit ids)) _ (src.cached_ids limit cursor) _
        (agrees.cached limit cursor) (by_ids-Gives limit cursor)
