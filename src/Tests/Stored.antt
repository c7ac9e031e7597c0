-- ===== src/Tests/Stored.antt =====
-- The theorems on the repositories, at small tables.
use distributed_workflow_sys.Prelude.{
  suc, length, ◌≡◌, refl, true, String, joined, List, [], ◌∷◌, map, All, ◌==◌, if◌then◌else◌,
}
use distributed_workflow_sys.Prelude.Act.{Act, Result, ok, fail}
use distributed_workflow_sys.Prelude.Keeps.{Returns}
use distributed_workflow_sys.Prelude.Gives.{Gives}
use distributed_workflow_sys.Domain.Task.{Task, TaskComment}
use distributed_workflow_sys.Domain.Workspace.{
  WorkspaceInvitation, WorkspaceInviteRequest, WorkspaceMember,
}
use distributed_workflow_sys.Sql.{Statement, text, time}
use distributed_workflow_sys.Sql.Query.{Row}
use distributed_workflow_sys.Sql.Laws.{inserted}
use distributed_workflow_sys.Sql.Meaning.{Tables, no_row, shown_as, with_row, no_scope, sort_by}
use distributed_workflow_sys.Sql.Sorted.{ascending}
use distributed_workflow_sys.Task.Repository.{create_row}
use distributed_workflow_sys.Task.Repository.Queries.{
  find_by_id, get_by_project_id_and_status_cursor,
}
use distributed_workflow_sys.Task.Repository.Queries.Statements.{task_by_id}
use distributed_workflow_sys.Task.Repository.Queries.Nulls.{stored_row}
use distributed_workflow_sys.Task.Repository.Queries.Columns.{get_tasks_by_project-InStatus}
use distributed_workflow_sys.Task.Repository.Queries.Comments.{comment_row, comments_of}
use distributed_workflow_sys.Task.Repository.Queries.Pages.{
  over_repository, Holds, read_pages-comments_of,
}
use distributed_workflow_sys.Task.Service.{Service, check_access}
use distributed_workflow_sys.Task.Service.Comments.Pages.{read_pages}
use distributed_workflow_sys.Task.Service.Listing.{get_tasks_by_project}
use distributed_workflow_sys.Task.Service.Listing.Columns.{Column}
use distributed_workflow_sys.Workspace.Invite.{accept_invitation, invite_user}
use distributed_workflow_sys.Workspace.Invitation.{handle_all}
use distributed_workflow_sys.Workspace.Repository.{
  repository, create_invite, find_by_id as find_workspace, find_invite_by_token,
  update_invite_status, is_member, add_member, get_member_role,
}
use distributed_workflow_sys.Workspace.Repository.Membership.{add_member-get_member_role}
use distributed_workflow_sys.Workspace.Repository.Apart.{Apart}
use distributed_workflow_sys.Workspace.Repository.Acceptance.{Joined, accept_invitation-Joined}
use distributed_workflow_sys.Workspace.Repository.Invites.Settled.{update_invite_status-settled}
use distributed_workflow_sys.Tests.Database.{a_task}
use distributed_workflow_sys.Tests.Tables.{db, answers, as_they_are}
use distributed_workflow_sys.Tests.Board.{proper_name}
use distributed_workflow_sys.Workspace.Service.{send_notification}
use distributed_workflow_sys.Tests.TaskService.{a_comment, down, service_with, ws_cache}
use distributed_workflow_sys.Tests.Invitations.{invitation, service_over, mail, accepted, requests}

abbrev loose_task : Task
loose_task = record (a_task "1" "LOW") { assignee_id = ""; deadline = 0 }

abbrev invitation_row : WorkspaceInvitation → Row
invitation_row i =
    inserted
      (text i.id
        ∷ text i.workspace_id
        ∷ text i.inviter_id
        ∷ text i.email
        ∷ text i.role
        ∷ text i.token
        ∷ text i.status
        ∷ time i.expires_at
        ∷ time i.created_at
        ∷ [])
      1
      ("id" ∷ "workspace_id" ∷ "inviter_id" ∷ "email" ∷ "role" ∷ "token" ∷ "status" ∷ "expires_at"
        ∷ "created_at" ∷ [])
      no_row

abbrev small : Tables
small name =
    if name == "tasks"
    then stored_row loose_task ∷ []
    else if name == "workspace_invitations"
    then invitation_row (invitation "PENDING") ∷ []
    else []

abbrev shown_task : Row
shown_task =
    shown_as task_by_id.columns
      (with_row (with_row no_scope "t" (stored_row loose_task)) "u" no_row)

abbrev after_update : Tables
after_update = (update_invite_status db "ws" "i" "ACCEPTED" small).1

update_invite_status-settled_example :
    Returns
      (λ (i : WorkspaceInvitation). i.status ≡ "ACCEPTED")
      (find_invite_by_token db "" "token" (
        handle_all
          (service_over (repository db))
          (record { repo = repository db; email_client = mail })
          "token"
          requests
          after_update)).0
unfolding find_invite_by_token update_invite_status sort_by
update_invite_status-settled_example =
    update_invite_status-settled db as_they_are answers "token" (service_over (repository db)) mail
      "ACCEPTED" (invitation "PENDING") small small after_update requests refl refl accepted

abbrev eve : WorkspaceMember
eve = record { id = "m"; workspace_id = "ws"; user_id = "eve"; role = "ADMIN"; joined_at = 0 }

abbrev with_eve : Tables
with_eve = (add_member db "ws" eve small).1

add_member-get_member_role_example :
    (is_member db "ws" "eve" with_eve ≡ (ok true, with_eve))
    × (get_member_role db "ws" "eve" with_eve ≡ (ok "ADMIN", with_eve))
    × ((get_member_role db "ws" "bob" with_eve).0 ≡ (get_member_role db "ws" "bob" small).0)
unfolding is_member add_member sort_by
add_member-get_member_role_example =
    add_member-get_member_role db as_they_are answers "ws" eve "ws" "bob" small small with_eve refl
      refl refl

apart : (M : List Row) → Apart (service_over (repository db)) (λ w. w "workspace_members" ≡ M)
unfolding send_notification
apart M = record {
  new_id = λ w h. h;
  now = λ w h. h;
  cache_joined = λ a b w h. h;
  cache_member = λ a m w h. h;
  cache_role = λ a b role w h. h;
  notify = λ payload key w h. h;
}

abbrev accepted_by_eve : Tables
accepted_by_eve = (accept_invitation (service_over (repository db)) "token" "eve" small).1

accept_invitation-Joined_example :
    (invite : WorkspaceInvitation) × ((find_invite_by_token db "" "token" small).0 ≡ ok invite)
    × Joined db as_they_are answers
        (service_over (repository db))
        apart
        invite
        "eve"
        accepted_by_eve
unfolding accept_invitation find_invite_by_token sort_by is_member add_member find_workspace
    update_invite_status
accept_invitation-Joined_example =
    accept_invitation-Joined db as_they_are answers (service_over (repository db)) apart "token"
      "eve" small accepted_by_eve refl

-- Eve, who is no member, invites herself as an administrator, and accepts.
abbrev own_invitation : WorkspaceInviteRequest
own_invitation = record {
  workspace_id = "ws";
  email = "eve@example.org";
  role = "ADMIN";
  inviter_id = "eve";
  token = "";
}

abbrev invited_by_eve : Tables
invited_by_eve = (invite_user (service_over (repository db)) own_invitation small).1

eve_is_admin :
    (get_member_role db "ws" "eve"
      (accept_invitation (service_over (repository db)) "fresh" "eve" invited_by_eve).1).0
    ≡ ok "ADMIN"
unfolding invite_user create_invite accept_invitation find_invite_by_token sort_by is_member
    add_member find_workspace update_invite_status get_member_role
eve_is_admin = refl

abbrev comments : List TaskComment
comments = a_comment "c2" ∷ record (a_comment "c0") { task_id = "2" } ∷ a_comment "c1" ∷ []

abbrev commented : Tables
commented name = if name == "task_comments" then map comment_row comments else []

abbrev task_service : Service Tables
task_service = service_with ws_cache (λ m. down)

abbrev exec : Statement → Act Tables (Unit {0})
exec statement w = (ok tt, w)

bob_access : Gives (Holds db as_they_are answers exec task_service "ws" "1" "bob" comments) tt (
    check_access
      (over_repository db as_they_are answers exec task_service "ws" "1" "bob" comments)
      "ws"
      "bob"
      [])
unfolding check_access
bob_access w h = (refl, h)

read_pages-comments_of_example :
    (read_pages
      (over_repository db as_they_are answers exec task_service "ws" "1" "bob" comments)
      "ws"
      "1"
      "bob"
      1
      (suc (length (comments_of "ws" "1" comments)))
      ""
      commented).0
    ≡ ok (a_comment "c1" ∷ a_comment "c2" ∷ [])
unfolding sort_by ascending
read_pages-comments_of_example =
    read_pages-comments_of db as_they_are answers exec task_service "ws" "1" "bob" comments 0
      commented ((refl, tt), proper_name "c1" tt, (tt, proper_name "c2" tt, tt)) bob_access refl

-- A board with a task in each of two columns, each with an assignee and a deadline.
abbrev first_task : Task
first_task = record (a_task "1" "LOW") { deadline = 9 }

abbrev done_task : Task
done_task = record (a_task "2" "HIGH") { status = "DONE"; deadline = 9 }

abbrev two_columns : Tables
two_columns name = if name == "tasks" then stored_row first_task ∷ stored_row done_task ∷ [] else []

abbrev asked : List String
asked = "TODO" ∷ "DONE" ∷ "NONE" ∷ []

abbrev board : Service Tables
board = over_repository db as_they_are answers exec task_service "ws" "1" "bob" comments

abbrev first_ids : Result (List (String × (List Task × String))) → List String
first_ids (ok columns) = map (λ c. joined (c.0 ∷ ":" ∷ map (λ (t : Task). t.id) c.1.0)) columns
first_ids (fail e) = []

columns_found :
    first_ids (get_tasks_by_project board "ws" "p" "bob" asked 10 "" two_columns).0
    ≡ "TODO:1" ∷ "DONE:2" ∷ []
unfolding get_tasks_by_project check_access get_by_project_id_and_status_cursor sort_by create_row
    distributed_workflow_sys.Sql.optional_text distributed_workflow_sys.Sql.optional_time
columns_found = refl

get_tasks_by_project-InStatus_example :
    Returns (All Column) (get_tasks_by_project board "ws" "p" "bob" asked 10 "" two_columns).0
get_tasks_by_project-InStatus_example =
    get_tasks_by_project-InStatus db as_they_are answers exec task_service "ws" "p" "bob" asked 10
      "" two_columns
