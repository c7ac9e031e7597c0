-- ===== src/Workspace/Temporal.antt =====
-- services/workspace-service/internal/temporal: the activities and the invitation's workflow. The
-- mail client and the workflow engine are parameters: `sleep` is workflow.Sleep, and
-- `execute_activity` runs an activity under the retry policy, which tries it five times at most.
use distributed_workflow_sys.Prelude.{ℕ, ◌*◌, String, not, ◌==◌, if◌then◌else◌}
use distributed_workflow_sys.Prelude.Act.{Act, ◌>>=◌, ◌>>◌, pure, ignore}
use distributed_workflow_sys.Domain.Workspace.{WorkspaceInvitation, WorkspaceRepository}

pub record EmailClient (W : Type 0) : Type 0 where
  pub send_invite : String → String → Act W (Unit {0})
  pub send_reminder : String → Act W (Unit {0})

pub record WorkspaceActivities (W : Type 0) : Type 0 where
  pub repo : WorkspaceRepository W
  pub email_client : EmailClient W

module _ {W : Type 0} (a : WorkspaceActivities W) where
  unfoldable send_invite_email : String → String → Act W (Unit {0})
  send_invite_email to token = a.email_client.send_invite to token

  unfoldable send_reminder_email : String → Act W (Unit {0})
  send_reminder_email to = a.email_client.send_reminder to

  unfoldable pub check_invite_status : String → Act W String
  check_invite_status token = do invite ← a.repo.find_invite_by_token "" token; pure invite.status

  unfoldable pub expire_found : WorkspaceInvitation → Act W (Unit {0})
  expire_found invite =
      if not (invite.status == "PENDING")
      then pure tt
      else a.repo.update_invite_status invite.workspace_id invite.id "EXPIRED"

  unfoldable pub expire_invite : String → Act W (Unit {0})
  unfolding expire_found
  expire_invite token = a.repo.find_invite_by_token "" token >>= expire_found

-- The engine's calls of a workflow.
pub record Engine (W : Type 0) : Type 1 where
  pub sleep : ℕ → Act W (Unit {0})
  pub execute_activity : {A : Type 0} → Act W A → Act W A

-- `time.Hour * 24` in nanoseconds.
abbrev day : ℕ
day = 3600000000000 * 24

module _ {W : Type 0} (a : WorkspaceActivities W) (engine : Engine W) where
  unfoldable remind_and_expire : String → String → String → Act W (Unit {0})
  unfolding send_reminder_email expire_invite
  remind_and_expire email token status =
      if status == "PENDING"
      then (do
        engine.execute_activity (send_reminder_email a email)
        ignore (engine.sleep (day * 4))
        engine.execute_activity (expire_invite a token))
      else pure tt

  unfoldable invite_user_workflow : String → String → Act W (Unit {0})
  unfolding send_invite_email check_invite_status remind_and_expire
  invite_user_workflow email token = do
    engine.execute_activity (send_invite_email a email token)
    ignore (engine.sleep (day * 10))
    status ← engine.execute_activity (check_invite_status a token)
    remind_and_expire email token status
