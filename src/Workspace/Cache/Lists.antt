-- ===== src/Workspace/Cache/Lists.antt =====
-- A cached list of workspace ids is read back page by page.
use distributed_workflow_sys.Prelude.{
  ℕ, zero, suc, ◌≡◌, refl, sym, ap, ◌∙◌, String, Option, none, some, false, inl, inr, Bool-cases,
  not, List, [], ◌∷◌, keep, take, take-short, ◌==◌, All, keep-All_of, arith, eq_refl,
}
use distributed_workflow_sys.Prelude.Act.{Result, ok}
use distributed_workflow_sys.Paging.{behind, sort_desc}
use distributed_workflow_sys.Paging.Order.{self, page_ids, paginate_lem, page_ids-All}
use distributed_workflow_sys.Redis.{Redis, zrem, zadd}
use distributed_workflow_sys.Redis.Laws.{Keeping, Distinct, without, add_members-nil}
use distributed_workflow_sys.Task.Cache.{placeholder}
use distributed_workflow_sys.Workspace.Cache.{
  user_owned_key, user_joined_key, stored_ids, real_ids, get_ids, get_owned_workspace_ids,
  get_joined_workspace_ids, set_owned_workspace_ids, set_joined_workspace_ids, add_id,
  add_owned_workspace_id, add_joined_workspace_id,
}

-- No id is the text that stands for an empty list.
abbrev pub Real : List String → Type 0
Real ids = All (λ id. (id == placeholder) ≡ false) ids

real_ids-Real : (ids : List String) → Real ids → real_ids ids ≡ ids
real_ids-Real [] h = refl
real_ids-Real (id ∷ ids) h = rw (h.0) (ap (◌∷◌ id) (real_ids-Real ids h.1))

real_ids-page_ids :
    (cursor : String) (limit : ℕ) (ids : List String)
    → Real ids
    → real_ids (take limit (keep (behind self cursor) (sort_desc self ids)))
      ≡ page_ids cursor limit ids
real_ids-page_ids cursor limit ids h =
    ap real_ids (sym (paginate_lem self cursor limit (sort_desc self ids)))
    ∙ real_ids-Real (page_ids cursor limit ids)
        (page_ids-All (λ id. (id == placeholder) ≡ false) cursor limit ids h)

Real-real_ids : (ids : List String) → Real (real_ids ids)
Real-real_ids [] = tt
Real-real_ids (id ∷ ids) = elim (Bool-cases (id == placeholder)) [
  | inl empty ↦ rw empty (Real-real_ids ids)
  | inr real ↦ rw real (real, Real-real_ids ids)
]

page_ids-nil : (cursor : String) (limit : ℕ) → page_ids cursor limit [] ≡ []
unfolding sort_desc
page_ids-nil cursor limit = paginate_lem self cursor limit [] ∙ take-short limit [] (omega arith)

-- A page of the set that stands for an empty list.
real_ids-placeholder :
    (cursor : String) (limit : ℕ)
    → real_ids (take limit (keep (behind self cursor) (placeholder ∷ []))) ≡ []
real_ids-placeholder cursor zero = refl
real_ids-placeholder cursor (suc limit) = elim (Bool-cases (behind self cursor placeholder)) [
  | inl shown ↦ rw shown (ap real_ids (take-short limit [] (omega arith)))
  | inr past ↦ rw past refl
]

-- What is read of a set to which an id has been added.
abbrev pub grown : String → ℕ → String → List String → Option (List String)
grown cursor limit id [] = none
grown cursor limit id (m ∷ ms) = some (page_ids cursor limit (id ∷ without id (real_ids (m ∷ ms))))

module _ {W : Type 0} (rdb : Redis W) (set : W → String → List String)
    (hash : W → String → List (String × String)) (keeping : Keeping rdb set hash) where
  -- The page that is read of a set with members.
  get_ids-members :
      (key m : String) (ms : List String) (limit : ℕ) (cursor : String) (w : W)
      → set w key ≡ m ∷ ms
      → get_ids rdb key limit cursor w ≡ (
        ok (some (real_ids (take limit (keep (behind self cursor) (sort_desc self (m ∷ ms)))))),
        w,
      )
  unfolding get_ids
  get_ids-members key m ms limit cursor w h =
      rw (keeping.a_set w key m ms h, keeping.range w key m ms cursor limit h) refl

  stored_ids-get :
      (key : String) (ids : List String) (limit : ℕ) (cursor : String) (w w' : W)
      → Distinct ids
      → Real ids
      → rdb.exec (stored_ids key ids) w ≡ (ok tt, w')
      → get_ids rdb key limit cursor w' ≡ (ok (some (page_ids cursor limit ids)), w')
  unfolding stored_ids sort_desc
  stored_ids-get key [] limit cursor w w' d r e =
      get_ids-members key placeholder [] limit cursor w'
        (keeping.sets w w' (stored_ids key []) key e ∙ rw (eq_refl key) refl)
      ∙ ap (λ ids. (ok (some ids), w'))
          (real_ids-placeholder cursor limit ∙ sym (page_ids-nil cursor limit))
  stored_ids-get key (id ∷ ids) limit cursor w w' d r e =
      get_ids-members key id ids limit cursor w' (
        keeping.sets w w' (stored_ids key (id ∷ ids)) key e
        ∙ rw (eq_refl key) (add_members-nil (id ∷ ids) d))
      ∙ ap (λ page. (ok (some page), w')) (real_ids-page_ids cursor limit (id ∷ ids) r)

  -- A key without members or fields is no cached list.
  get_ids-missing :
      (key : String) (limit : ℕ) (cursor : String) (w : W)
      → set w key ≡ []
      → hash w key ≡ []
      → get_ids rdb key limit cursor w ≡ (ok none, w)
  unfolding get_ids
  get_ids-missing key limit cursor w h g = rw (keeping.no_set w key h g) refl

  -- An id joins a set with members, from which the placeholder goes.
  add_id-get :
      (key id : String) (set_members : List String) (limit : ℕ) (cursor : String) (w w' : W)
      → set w key ≡ set_members
      → hash w key ≡ []
      → (id == placeholder) ≡ false
      → add_id rdb key id w ≡ (ok tt, w')
      → get_ids rdb key limit cursor w' ≡ (ok (grown cursor limit id set_members), w')
  unfolding add_id
  add_id-get key id [] limit cursor w w' h g real e =
      let idle : add_id rdb key id w ≡ (ok tt, w) = rw (keeping.no_set w key h g) refl in
      let same : w ≡ w' = ap (λ (o : Result (Unit {0}) × W). o.1) (sym idle ∙ e) in
      get_ids-missing key limit cursor w' (ap (λ v. set v key) (sym same) ∙ h)
        (ap (λ v. hash v key) (sym same) ∙ g)
  add_id-get key id (m ∷ ms) limit cursor w w' h g real e =
      let cs = zrem key placeholder ∷ zadd key (id ∷ []) ∷ [] in
      let rest = without id (real_ids (m ∷ ms)) in
      let stored = keeping.sets w w' cs key (sym (rw (keeping.a_set w key m ms h) refl) ∙ e) in
      get_ids-members key id rest limit cursor w' (stored ∙ rw (eq_refl key, h) refl)
      ∙ ap (λ page. (ok (some page), w'))
          (real_ids-page_ids cursor limit (id ∷ rest) (
            real,
            keep-All_of (λ i. (i == placeholder) ≡ false) (λ i. not (i == id)) (real_ids (m ∷ ms))
                (Real-real_ids (m ∷ ms)),
          ))

  -- In a Redis that keeps to its documentation, both lists of a user that have been cached are read
  -- back page by page: the ids behind the cursor, by descending id. An empty list is read back as
  -- empty and not as missing. The ids are distinct, and none of them is the placeholder.
  pub set_workspace_ids-get :
      (user_id : String) (ids : List String) (limit : ℕ) (cursor : String) (w w1 w2 : W)
      → Distinct ids
      → Real ids
      → set_owned_workspace_ids rdb user_id ids w ≡ (ok tt, w1)
      → set_joined_workspace_ids rdb user_id ids w ≡ (ok tt, w2)
      → (get_owned_workspace_ids rdb user_id limit cursor w1
          ≡ (ok (some (page_ids cursor limit ids)), w1))
        × (get_joined_workspace_ids rdb user_id limit cursor w2
            ≡ (ok (some (page_ids cursor limit ids)), w2))
  unfolding set_owned_workspace_ids set_joined_workspace_ids get_owned_workspace_ids
      get_joined_workspace_ids
  set_workspace_ids-get user_id ids limit cursor w w1 w2 d r e1 e2 = (
    stored_ids-get (user_owned_key user_id) ids limit cursor w w1 d r e1,
    stored_ids-get (user_joined_key user_id) ids limit cursor w w2 d r e2,
  )

  -- In a Redis that keeps to its documentation, an id that is added to a user's cached list of
  -- owned or joined workspaces is in the pages read from then on, once, beside the ids that were
  -- there; a list that is not cached stays so. The id is not the placeholder, and the keys of the
  -- lists hold no hashes.
  pub add_workspace_id-get :
      (user_id id : String) (limit : ℕ) (cursor : String) (w w1 w2 : W)
      → (id == placeholder) ≡ false
      → hash w (user_owned_key user_id) ≡ []
      → hash w (user_joined_key user_id) ≡ []
      → add_owned_workspace_id rdb user_id id w ≡ (ok tt, w1)
      → add_joined_workspace_id rdb user_id id w ≡ (ok tt, w2)
      → (get_owned_workspace_ids rdb user_id limit cursor w1
          ≡ (ok (grown cursor limit id (set w (user_owned_key user_id))), w1))
        × (get_joined_workspace_ids rdb user_id limit cursor w2
            ≡ (ok (grown cursor limit id (set w (user_joined_key user_id))), w2))
  unfolding add_owned_workspace_id add_joined_workspace_id get_owned_workspace_ids
      get_joined_workspace_ids
  add_workspace_id-get user_id id limit cursor w w1 w2 real owned joined e1 e2 = (
    add_id-get (user_owned_key user_id) id (set w (user_owned_key user_id)) limit cursor w w1 refl
        owned real e1,
    add_id-get (user_joined_key user_id) id (set w (user_joined_key user_id)) limit cursor w w2 refl
        joined real e2,
  )
