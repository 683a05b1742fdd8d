-- ===== src/Tasks/Visible.antt =====
-- backend/apps/tasks/access.py: the Tasks that a Workspace context sees.
use hustly_tasker.Access.{can_read_workspace, WorkspaceAccessContext, workspaces_visible_to}
use hustly_tasker.Prelude.{
  guard, or_raise, ◌>>=◌, ◌>>◌, Result, tenant_access_not_found, refers, exists, rows, first, Ref,
  ◌==◌, nat_eq, string_eq, bool_eq, option_eq, list_eq, List, ok,
}
use hustly_tasker.Store.{
  profile_status_eq, profile_role_eq, workspace_status_eq, workspace_role_eq, task_status_eq,
  task_priority_eq, deliverable_status_eq, review_status_eq, event_type_eq, invitation_role_eq,
  invitation_status_eq, delivery_status_eq, token_purpose_eq, token_status_eq,
  profile_invitation_key, account_security_token_key, Db, user_key, profile_key,
  profile_membership_key, workspace_key, workspace_member_key, task_key, task_assignment_key,
  task_comment_key, deliverable_key, review_key, audit_log_key, notification_key, period_eq,
  deadline_eq, Task,
}

unfoldable pub tasks_visible_to : Db → WorkspaceAccessContext → Result (List Task)
tasks_visible_to db context = do
  guard (can_read_workspace db context) tenant_access_not_found
  visible ← workspaces_visible_to db context.profile_context
  let workspaces = rows (λ workspace. workspace.id == context.workspace_id) visible
  ok (rows (λ task. exists (λ workspace. workspace.id == task.workspace_id) workspaces) db.tasks)

unfoldable pub resolve_task_in_scope : Db → WorkspaceAccessContext → Ref → Result Task
unfolding tasks_visible_to
resolve_task_in_scope db context task_id = do
  visible ← tasks_visible_to db context
  or_raise (first (λ task. refers task_id task.id) visible) tenant_access_not_found
