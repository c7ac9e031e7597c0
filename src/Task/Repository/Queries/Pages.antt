-- ===== src/Task/Repository/Queries/Pages.antt =====
-- Reading the comments of a task page by page from the database.
use distributed_workflow_sys.Prelude.{
  ℕ, suc, ◌≡◌, ◌≢◌, refl, sym, ap, ◌∙◌, subst, String, Bool, true, inl, inr, Bool-cases, List, [],
  ◌∷◌, ◌++◌, map, keep, keep-All, keep-All_of, length, ◌&&◌, ne-beq, All, arith,
}
use distributed_workflow_sys.Prelude.Act.{Act, ok}
use distributed_workflow_sys.Prelude.Gives.{Gives}
use distributed_workflow_sys.Prelude.TextOrder.{before, before_irrefl, before_trans, before_asym}
use distributed_workflow_sys.Domain.Task.{TaskComment}
use distributed_workflow_sys.Sql.{Statement}
use distributed_workflow_sys.Sql.Query.{Db}
use distributed_workflow_sys.Sql.Laws.{Answers}
use distributed_workflow_sys.Sql.Meaning.{Tables}
use distributed_workflow_sys.Task.Service.{Service, check_access}
use distributed_workflow_sys.Task.Service.Comments.Pages.{Behind, read_pages, read_pages_complete}
use distributed_workflow_sys.Task.Repository.Queries.{repository}
use distributed_workflow_sys.Task.Repository.Queries.Comments.{
  comment_row, comments_of, above_cursor, keep-ext, keep-keep, keep-all,
  get_comments_by_task_id-above,
}

-- The ids rise along the list, and none is the empty text.
abbrev pub Rising : List TaskComment → Type 0
Rising [] = Unit {0}
Rising (c ∷ cs) = All (λ d. before c.id d.id ≡ true) cs × (c.id ≢ "") × Rising cs

keep-Rising : (p : TaskComment → Bool) (cs : List TaskComment) → Rising cs → Rising (keep p cs)
keep-Rising p [] h = tt
keep-Rising p (c ∷ cs) h = elim (Bool-cases (p c)) [
  | inl here ↦
      rw here (keep-All_of (λ d. before c.id d.id ≡ true) p cs h.0, h.1, keep-Rising p cs h.2)
  | inr gone ↦ rw gone (keep-Rising p cs h.2)
]

All-at :
    {A : Type 0} (P : A → Type 0) (xs : List A) (y : A) (ys : List A) → All P (xs ++ y ∷ ys) → P y
All-at P [] y ys h = h.0
All-at P (x ∷ xs) y ys h = All-at P xs y ys h.1

Rising-at :
    (xs : List TaskComment) (c : TaskComment) (ys : List TaskComment)
    → Rising (xs ++ c ∷ ys)
    → c.id ≢ ""
Rising-at [] c ys h = h.1
Rising-at (x ∷ xs) c ys h = Rising-at xs c ys h.2

keep-above_all :
    (c : TaskComment) (cs : List TaskComment)
    → c.id ≢ ""
    → All (λ d. before c.id d.id ≡ true) cs
    → keep (above_cursor c.id) cs ≡ cs
keep-above_all c [] proper h = refl
keep-above_all c (d ∷ cs) proper h =
    rw (ne-beq c.id "" proper, h.0) (ap (◌∷◌ d) (keep-above_all c cs proper h.1))

-- Above the id of one of the comments are those that follow it.
keep-above :
    (xs : List TaskComment) (c : TaskComment) (ys : List TaskComment)
    → Rising (xs ++ c ∷ ys)
    → keep (above_cursor c.id) (xs ++ c ∷ ys) ≡ ys
keep-above [] c ys h = rw (ne-beq c.id "" h.1, before_irrefl c.id) (keep-above_all c ys h.1 h.0)
keep-above (x ∷ xs) c ys h =
    let proper = Rising-at xs c ys h.2 in
    rw
      (
        ne-beq c.id "" proper,
        before_asym x.id c.id (All-at (λ d. before x.id d.id ≡ true) xs c ys h.0),
      )
      (keep-above xs c ys h.2)

above_cursor_trans :
    (cursor : String) (c d : TaskComment)
    → c.id ≢ ""
    → above_cursor cursor c ≡ true
    → (above_cursor cursor d && above_cursor c.id d) ≡ above_cursor c.id d
above_cursor_trans cursor c d proper h =
    let e = ne-beq c.id "" proper in ground (arith, before_trans cursor c.id d.id)

module _ (comments : List TaskComment) (rising : Rising comments) where
  above-Behind : Behind (λ cursor. keep (above_cursor cursor) comments)
  above-Behind = record {
    next = λ cursor xs c ys e.
        let found = keep-Rising (above_cursor cursor) comments rising in
        let split = subst Rising e found in
        let proper = Rising-at xs c ys split in
        let above : above_cursor cursor c ≡ true =
          All-at (λ d. above_cursor cursor d ≡ true) xs c ys
            (subst (All (λ d. above_cursor cursor d ≡ true)) e
              (keep-All (above_cursor cursor) comments)) in
        (
          sym (
                keep-keep (above_cursor cursor) (above_cursor c.id) comments
                ∙ keep-ext _ _ comments (λ d. above_cursor_trans cursor c d proper above))
              ∙ ap (keep (above_cursor c.id)) e
              ∙ keep-above xs c ys split,
          proper,
        );
  }

module _ {W : Type 0} (db : Db W) (tables : W → Tables) (answers : Answers db tables)
    (exec : Statement → Act W (Unit {0})) (s : Service W) (workspace_id task_id user_id : String)
    (comments : List TaskComment) where
  -- The service over the repository.
  abbrev pub over_repository : Service W
  over_repository = record s { task_repo = repository db exec }

  -- The rows of the table of comments are those of the list.
  abbrev pub Holds : W → Type 0
  Holds w = tables w "task_comments" ≡ map comment_row comments

  -- Over a database that answers as documented, where the table of comments has the rows of a list,
  -- of which the task's have distinct ids that are not empty, and the caller passes the check,
  -- which leaves this table alone, a client that follows the cursors of GetTaskComments with the
  -- limit `n + 1` reads each comment of the task once, in the order of the ids, in at most as many
  -- requests as there are comments and one more.
  pub read_pages-comments_of :
      (n : ℕ) (w : W)
      → Rising (comments_of workspace_id task_id comments)
      → Gives Holds tt (check_access over_repository workspace_id user_id [])
      → Holds w
      → (read_pages over_repository workspace_id task_id user_id
          (suc n)
          (suc (length (comments_of workspace_id task_id comments)))
          ""
          w).0
        ≡ ok (comments_of workspace_id task_id comments)
  read_pages-comments_of n w rising access here =
      let all = comments_of workspace_id task_id comments in
      let whole : keep (above_cursor "") all ≡ all = keep-all (above_cursor "") all (λ c. refl) in
      read_pages_complete over_repository workspace_id task_id user_id n
        (λ cursor. keep (above_cursor cursor) all) (above-Behind all rising) Holds access
        (λ k cursor v h.
          let path =
            get_comments_by_task_id-above db tables answers workspace_id task_id comments k cursor v
              h in
          (ap (λ o. o.0) path, subst (λ o. Holds o.1) (sym path) h))
        (suc (length all)) "" w here (rw whole (omega arith))
      ∙ ap ok whole
