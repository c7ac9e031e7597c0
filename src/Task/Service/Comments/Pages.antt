-- ===== src/Task/Service/Comments/Pages.antt =====
-- Reading the comments of a task page by page, as a client of GetTaskComments does.
use distributed_workflow_sys.Prelude.{
  ℕ, zero, suc, ◌+◌, ◌<◌, ◌≡◌, ◌≢◌, refl, sym, ap, ◌∙◌, subst, String, some, List, [], ◌∷◌, ◌++◌,
  ltb, length, take, drop, take-append-drop, length-take, length-drop, take-short, true, ◌⊎◌,
  Bool-cases, inl, inr, if◌then◌else◌, ◌==◌, ne-beq, arith,
}
use distributed_workflow_sys.Prelude.Act.{Act, Result, ok, ◌>>=◌, pure, returned}
use distributed_workflow_sys.Prelude.Keeps.{after-known}
use distributed_workflow_sys.Prelude.Gives.{Gives}
use distributed_workflow_sys.Sql.{get_elem?}
use distributed_workflow_sys.Domain.Task.{TaskComment}
use distributed_workflow_sys.Task.Service.{Service, check_access}
use distributed_workflow_sys.Task.Service.Comments.{cut_page, get_task_comments}

-- The element at a position, and the list around it.
get_elem?-take :
    {A : Type 0} (m n : ℕ) (xs : List A)
    → n < m
    → n < length xs
    → (x : A) × (get_elem? (take m xs) n ≡ some x)
      × (xs ≡ take n xs ++ x ∷ drop (suc n) xs)
      × (take (suc n) (take m xs) ≡ take (suc n) xs)
get_elem?-take m n [] r h = absurd (omega arith)
get_elem?-take zero n (x ∷ xs) r h = absurd (omega arith)
get_elem?-take (suc m) zero (x ∷ xs) r h = (x, refl, refl, refl)
get_elem?-take (suc m) (suc n) (x ∷ xs) r h =
    let (y, at, around, cut) = get_elem?-take m n xs (omega arith) (omega arith) in
    (y, at, ap (λ l. x ∷ l) around, ap (λ l. x ∷ l) cut)

module _ {W : Type 0} (s : Service W) (workspace_id task_id user_id : String) (limit : ℕ) where
  -- The client: pages are read until no next cursor is given.
  unfoldable pub read_pages : ℕ → String → Act W (List TaskComment)
  read_pages zero cursor = pure []
  read_pages (suc fuel) cursor =
      get_task_comments s workspace_id task_id user_id limit cursor >>= λ page.
      if page.1 == ""
      then pure page.0
      else (read_pages fuel page.1 >>= λ rest. pure (page.0 ++ rest))

-- The comments behind a cursor, as `id > $3 … ORDER BY id ASC` selects them: behind the id of one
-- of them are those that follow it. No comment has the empty id, which stands for the start.
pub record Behind (following : String → List TaskComment) : Type 0 where
  pub next :
      (cursor : String) (before : List TaskComment) (c : TaskComment) (behind : List TaskComment)
      → following cursor ≡ before ++ c ∷ behind
      → (following c.id ≡ behind) × (c.id ≢ "")

module _ {W : Type 0} (s : Service W) (workspace_id task_id user_id : String) (n : ℕ)
    (following : String → List TaskComment) (behind : Behind following) (I : W → Type 0)
    (access : Gives I tt (check_access s workspace_id user_id []))
    (stored : (k : ℕ) (cursor : String)
      → Gives I
          (take k (following cursor))
          (s.task_repo.get_comments_by_task_id workspace_id task_id k cursor)) where
  comments-page :
      (cursor : String) (w : W)
      → I w
      → ((get_task_comments s workspace_id task_id user_id (suc n) cursor w).0
          ≡ cut_page (suc n) (take (suc n + 1) (following cursor)))
        × I (get_task_comments s workspace_id task_id user_id (suc n) cursor w).1
  unfolding get_task_comments
  comments-page cursor w i =
      let r = check_access s workspace_id user_id [] w in
      let (e, j) = access w i in
      let listed = s.task_repo.get_comments_by_task_id workspace_id task_id (suc n + 1) cursor in
      let (e', k) = stored (suc n + 1) cursor r.1 j in
      let path =
        after-known r (λ u. listed >>= λ c. returned (cut_page (suc n) c)) tt e
        ∙ after-known (listed r.1) (λ c. returned (cut_page (suc n) c)) _ e' in
      (ap (λ o. o.0) path, subst (λ o. I o.1) (sym path) k)

  -- A page is either the rest, or a part of it with the cursor behind that part.
  abbrev Page : List TaskComment → Result (List TaskComment × String) → Type 0
  Page rest r =
      (r ≡ ok (rest, ""))
      ⊎ ((page : List TaskComment) × (next : String) × (r ≡ ok (page, next))
          × (next ≢ "")
          × (page ++ following next ≡ rest)
          × (length (following next) < length rest))

  cut_page-Page :
      (cursor : String)
      → Page (following cursor) (cut_page (suc n) (take (suc n + 1) (following cursor)))
  unfolding cut_page
  cut_page-Page cursor =
      let rest = following cursor in
      let size = length-take (suc n + 1) rest in
      elim (Bool-cases (ltb (suc n) (length rest))) [
        | inr short ↦
            let whole = take-short (suc n + 1) rest (ground arith) in inl (rw (whole, short) refl)
        | inl long ↦
            let bound : suc n < length rest = ground arith in
            let (c, at, around, cut) =
              get_elem?-take (suc n + 1) n rest (omega arith) (omega arith) in
            let (next, proper) = behind.next cursor (take n rest) c (drop (suc n) rest) around in
            let cond : ltb (suc n) (length (take (suc n + 1) rest)) ≡ true = ground (arith, size) in
            inr (
              take (suc n) rest,
              c.id,
              rw (cond, at, cut) refl,
              proper,
              rw next (take-append-drop (suc n) rest),
              rw next (omega (arith, length-drop (suc n) rest)),
            )
      ]

  -- Where the caller passes the check and the table selects the comments behind a cursor in the
  -- order of their ids, reading on from any cursor with the limit `n + 1` gives the comments behind
  -- that cursor, each once and in order, after at most as many requests as there are comments and
  -- one more.
  pub read_pages_complete :
      (fuel : ℕ) (cursor : String) (w : W)
      → I w
      → length (following cursor) < fuel
      → (read_pages s workspace_id task_id user_id (suc n) fuel cursor w).0 ≡ ok (following cursor)
  unfolding read_pages
  read_pages_complete zero cursor w i h = absurd (omega arith)
  read_pages_complete (suc fuel) cursor w i h =
      let r = get_task_comments s workspace_id task_id user_id (suc n) cursor w in
      let (e, j) = comments-page cursor w i in
      elim (cut_page-Page cursor) [
        | inl last ↦ ap (λ o. o.0) (after-known r _ _ (e ∙ last))
        | inr (page, next, here, proper, around, less) ↦
            ap (λ o. o.0) (after-known r _ (page, next) (e ∙ here))
            ∙ rw (ne-beq next "" proper) (
                ap (λ o. o.0)
                  (after-known (read_pages s workspace_id task_id user_id (suc n) fuel next r.1)
                    (λ rest. pure (page ++ rest)) _
                    (read_pages_complete fuel next r.1 j (omega arith)))
                ∙ ap ok around)
      ]
