-- ===== src/Task/Service/Comments.antt =====
-- AddComment and GetTaskComments of internal/task/service.go.
pub mod Pages
use distributed_workflow_sys.Prelude.{
  ℕ, zero, suc, ◌+◌, String, Option, none, some, List, [], ◌∷◌, ltb, length, take, joined,
  if◌then◌else◌,
}
use distributed_workflow_sys.Prelude.Act.{
  Act, Error, other, Result, ok, fail, ◌>>=◌, ◌>>◌, pure, returned, attempt, relabel, when,
  error_text,
}
use distributed_workflow_sys.Sql.{get_elem?}
use distributed_workflow_sys.Apperror.{internal_server}
use distributed_workflow_sys.Domain.Task.{Task, TaskComment, CommentCreateInput}
use distributed_workflow_sys.Domain.User.{UserSnapshot}
use distributed_workflow_sys.Domain.Event.{NotificationEventPayload}
use distributed_workflow_sys.Task.Service.{Service, check_access, get_task_by_id, send_notification}
use distributed_workflow_sys.Task.Service.Create.{concerns}

unfoldable comment_id_failure : Error → Error
comment_id_failure err =
    internal_server (joined ("failed to generate comment ID: " ∷ error_text err ∷ []))

unfoldable comment_payload : Task → String → NotificationEventPayload
comment_payload t commenter_name = record {
  channel = "IN_APP";
  user_id = t.assignee_id;
  title = "New Comment on Your Task";
  message = joined (commenter_name ∷ " commented on your assigned task '" ∷ t.title ∷ "'" ∷ []);
  kind = "INFO";
}

abbrev commenter_name_of : Result UserSnapshot → String
commenter_name_of (ok commenter) = commenter.full_name
commenter_name_of (fail e) = "Someone"

-- The index expression `comments[limit-1]` with the limit 0.
abbrev pub out_of_range : Error
out_of_range = other "runtime error: index out of range [-1]"

abbrev page_ending : List TaskComment → Option TaskComment → Result (List TaskComment × String)
page_ending comments none = fail out_of_range
page_ending comments (some last) = ok (comments, last.id)

-- One comment more than the limit shows that there is a next page.
unfoldable pub cut_page : ℕ → List TaskComment → Result (List TaskComment × String)
cut_page zero [] = ok ([], "")
cut_page zero (c ∷ comments) = fail out_of_range
cut_page (suc n) comments =
    if ltb (suc n) (length comments)
    then page_ending (take (suc n) comments) (get_elem? comments n)
    else ok (comments, "")

module _ {W : Type 0} (s : Service W) where
  -- The commenter's name is looked up only for an assignee who did not write the comment.
  unfoldable notify_assignee : String → Result (Option Task) → Act W (Unit {0})
  unfolding concerns comment_payload
  notify_assignee user_id (fail e) = pure tt
  notify_assignee user_id (ok none) = pure tt
  notify_assignee user_id (ok (some t)) = when (concerns t user_id) (do
    commenter ← attempt (s.user_repo.find_by_id user_id)
    send_notification s (comment_payload t (commenter_name_of commenter)) t.assignee_id)

  unfoldable pub add_comment : String → String → CommentCreateInput → String → Act W TaskComment
  unfolding comment_id_failure notify_assignee
  add_comment workspace_id task_id input user_id = do
    check_access s workspace_id user_id []
    comment_id ← relabel comment_id_failure s.runtime.new_v7
    comment ← s.task_repo.create_comment workspace_id (record {
      id = comment_id;
      workspace_id = workspace_id;
      task_id = task_id;
      user_id = user_id;
      content = input.content;
      created_at = 0;
    })
    t ← attempt (get_task_by_id s workspace_id task_id)
    notify_assignee user_id t
    pure comment

  unfoldable pub get_task_comments :
      String → String → String → ℕ → String → Act W (List TaskComment × String)
  unfolding cut_page
  get_task_comments workspace_id task_id user_id limit cursor = do
    check_access s workspace_id user_id []
    comments ← s.task_repo.get_comments_by_task_id workspace_id task_id (limit + 1) cursor
    returned (cut_page limit comments)
