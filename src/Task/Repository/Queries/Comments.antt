-- ===== src/Task/Repository/Queries/Comments.antt =====
-- The comments that GetCommentsByTaskID reads from the table of comments.
use distributed_workflow_sys.Prelude.{
  ℕ, ◌≡◌, refl, sym, ap, ◌∙◌, String, Bool, true, false, inl, inr, Bool-cases, List, [], ◌∷◌, map,
  keep, take, ◌==◌, ◌&&◌, if◌then◌else◌, arith,
}
use distributed_workflow_sys.Prelude.Act.{ok}
use distributed_workflow_sys.Prelude.TextOrder.{before}
use distributed_workflow_sys.Domain.Task.{TaskComment}
use distributed_workflow_sys.Sql.{Value, text, time, number}
use distributed_workflow_sys.Sql.Query.{Row, Db, Select, select}
use distributed_workflow_sys.Sql.Laws.{Answers, inserted}
use distributed_workflow_sys.Sql.Meaning.{
  Tables, no_row, precedes, sort_by, shown_as, all_hold, less,
}
use distributed_workflow_sys.Sql.Sorted.{ascending, sort_by-ext, keep-sort_by}
use distributed_workflow_sys.Sql.Stored.{scope, chosen, selected-chosen, scan_all-shown}
use distributed_workflow_sys.Task.Repository.Queries.{scan_comment, get_comments_by_task_id}
use distributed_workflow_sys.Task.Repository.Queries.Statements.{comments_of_task, comments_above}

-- The row of a comment.
abbrev pub comment_row : TaskComment → Row
comment_row c =
    inserted
      (text c.id
        ∷ text c.workspace_id
        ∷ text c.task_id
        ∷ text c.user_id
        ∷ text c.content
        ∷ time c.created_at
        ∷ [])
      1 ("id" ∷ "workspace_id" ∷ "task_id" ∷ "user_id" ∷ "content" ∷ "created_at" ∷ []) no_row

abbrev pub comment_id : TaskComment → String
comment_id c = c.id

abbrev pub is_of : String → String → TaskComment → Bool
is_of workspace_id task_id c = (c.task_id == task_id) && (c.workspace_id == workspace_id)

-- The comments of a task in the order of their ids.
abbrev pub comments_of : String → String → List TaskComment → List TaskComment
comments_of workspace_id task_id comments =
    sort_by (ascending comment_id) (keep (is_of workspace_id task_id) comments)

-- Above a cursor; the empty one stands for the start.
abbrev pub above_cursor : String → TaskComment → Bool
above_cursor cursor c = if cursor == "" then true else before cursor c.id

pub keep-ext :
    {A : Type 0} (p q : A → Bool) (xs : List A) → ((x : A) → p x ≡ q x) → keep p xs ≡ keep q xs
keep-ext p q [] h = refl
keep-ext p q (x ∷ xs) h = rw (h x, keep-ext p q xs h) refl

pub keep-keep :
    {A : Type 0} (p q : A → Bool) (xs : List A) → keep q (keep p xs) ≡ keep (λ x. p x && q x) xs
keep-keep p q [] = refl
keep-keep p q (x ∷ xs) = elim (Bool-cases (p x)) [
  | inl here ↦ rw here (ap (λ l. if q x then x ∷ l else l) (keep-keep p q xs))
  | inr gone ↦ rw gone (keep-keep p q xs)
]

module _ {W : Type 0} where
  scan_comment-shown :
      (q : Select) (c : TaskComment) (w : W)
      → q.columns ≡ comments_of_task.columns
      → q.alias ≡ ""
      → scan_comment (shown_as q.columns (scope comment_row q [] c)) w ≡ (ok c, w)
  unfolding scan_comment
  scan_comment-shown q c w columns alias = rw (columns, alias) refl

-- Both queries order by the id.
precedes-ascending :
    (a b : TaskComment)
    → precedes comments_of_task.order
        (scope comment_row comments_of_task [] a)
        (scope comment_row comments_of_task [] b)
      ≡ ascending comment_id a b
unfolding ascending less
precedes-ascending a b = elim (Bool-cases (before a.id b.id)) [
  | inl less_id ↦ rw less_id refl
  | inr more ↦
      rw more (elim (Bool-cases (before b.id a.id)) [ inl k ↦ rw k refl | inr k ↦ rw k refl ])
]

is_of-holds :
    (workspace_id task_id : String) (limit : Value) (c : TaskComment)
    → all_hold
        (text task_id ∷ text workspace_id ∷ limit ∷ [])
        comments_of_task.conditions
        (scope comment_row comments_of_task [] c)
      ≡ is_of workspace_id task_id c
is_of-holds workspace_id task_id limit c = ground arith

above_cursor-holds :
    (workspace_id task_id cursor : String) (limit : Value) (c : TaskComment)
    → (cursor == "") ≡ false
    → all_hold
        (text task_id ∷ text workspace_id ∷ text cursor ∷ limit ∷ [])
        comments_above.conditions
        (scope comment_row comments_above [] c)
      ≡ (is_of workspace_id task_id c && above_cursor cursor c)
unfolding less
above_cursor-holds workspace_id task_id cursor limit c h = rw h (ground arith)

pub keep-all : {A : Type 0} (p : A → Bool) (xs : List A) → ((x : A) → p x ≡ true) → keep p xs ≡ xs
keep-all p [] h = refl
keep-all p (x ∷ xs) h = rw (h x) (ap (◌∷◌ x) (keep-all p xs h))

module _ (workspace_id task_id : String) (comments : List TaskComment) where
  chosen-first :
      (k : ℕ) (cursor : String)
      → (cursor == "") ≡ true
      → chosen comment_row comments_of_task
          (text task_id ∷ text workspace_id ∷ number k ∷ [])
          comments
        ≡ take k (keep (above_cursor cursor) (comments_of workspace_id task_id comments))
  chosen-first k cursor h = ap (take k) (
      sort_by-ext _ (ascending comment_id) precedes-ascending _
      ∙ ap (sort_by (ascending comment_id))
          (keep-ext _ _ comments (is_of-holds workspace_id task_id (number k)))
      ∙ sym (keep-all (above_cursor cursor) _ (λ c. rw h refl)))

  chosen-above :
      (k : ℕ) (cursor : String)
      → (cursor == "") ≡ false
      → chosen comment_row comments_above
          (text task_id ∷ text workspace_id ∷ text cursor ∷ number k ∷ [])
          comments
        ≡ take k (keep (above_cursor cursor) (comments_of workspace_id task_id comments))
  chosen-above k cursor h = ap (take k) (
      sort_by-ext _ (ascending comment_id) precedes-ascending _
      ∙ ap (sort_by (ascending comment_id)) (
          keep-ext _ _ comments (λ c. above_cursor-holds workspace_id task_id cursor (number k) c h)
          ∙ sym (keep-keep (is_of workspace_id task_id) (above_cursor cursor) comments))
      ∙ sym (keep-sort_by comment_id (above_cursor cursor) _))

module _ {W : Type 0} (db : Db W) (tables : W → Tables) (answers : Answers db tables)
    (workspace_id task_id : String) (comments : List TaskComment) where
  -- Where the rows of the table of comments are those of a list of comments, GetCommentsByTaskID
  -- gives as many as asked for of the task's comments above the cursor, in the order of their ids.
  pub get_comments_by_task_id-above :
      (k : ℕ) (cursor : String) (w : W)
      → tables w "task_comments" ≡ map comment_row comments
      → get_comments_by_task_id db workspace_id task_id k cursor w
        ≡ (ok (take k (keep (above_cursor cursor) (comments_of workspace_id task_id comments))), w)
  unfolding get_comments_by_task_id
  get_comments_by_task_id-above k cursor w here = elim (Bool-cases (cursor == "")) [
    | inl start ↦
        let args = text task_id ∷ text workspace_id ∷ number k ∷ [] in
        rw
          (
            start,
            answers.select (select comments_of_task) args w,
            selected-chosen comment_row comments_of_task args (tables w) comments refl here,
          )
          (scan_all-shown scan_comment _ (λ c v. scan_comment-shown comments_of_task c v refl refl)
              _ w
            ∙ ap (λ l. (ok l, w)) (chosen-first workspace_id task_id comments k cursor start))
    | inr further ↦
        let args = text task_id ∷ text workspace_id ∷ text cursor ∷ number k ∷ [] in
        rw
          (
            further,
            answers.select (select comments_above) args w,
            selected-chosen comment_row comments_above args (tables w) comments refl here,
          )
          (scan_all-shown scan_comment _ (λ c v. scan_comment-shown comments_above c v refl refl) _
              w
            ∙ ap (λ l. (ok l, w)) (chosen-above workspace_id task_id comments k cursor further))
  ]
