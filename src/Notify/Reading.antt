-- ===== src/Notify/Reading.antt =====
-- backend/apps/notifications/services.py: marking a notification as read.
use hustly_tasker.Prelude.{
  ok, guard, or_raise, ◌>>=◌, ◌>>◌, Result, tenant_access_not_found, refers, exists, first, save,
  Ref, uuid, ◌==◌, nat_eq, string_eq, bool_eq, option_eq, list_eq, ℕ, true, false, ◌&&◌, Option,
  some,
}
use hustly_tasker.Access.{resolve_profile_access_context, resolve_workspace_access_context}
use hustly_tasker.Notify.Readers.{notifications_visible_to}
use hustly_tasker.Store.{
  profile_status_eq, profile_role_eq, workspace_status_eq, workspace_role_eq, task_status_eq,
  task_priority_eq, deliverable_status_eq, review_status_eq, event_type_eq, invitation_role_eq,
  invitation_status_eq, delivery_status_eq, token_purpose_eq, token_status_eq,
  profile_invitation_key, account_security_token_key, Db, Request, user_key, profile_key,
  profile_membership_key, workspace_key, workspace_member_key, task_key, task_assignment_key,
  task_comment_key, deliverable_key, review_key, audit_log_key, notification_key, period_eq,
  deadline_eq, Profile, Workspace, Notification,
}

unfoldable pub visible_notification : Db → ℕ → Ref → Option Notification
visible_notification db user_id notification_id =
    first (λ (row : Notification). refers notification_id row.id)
      (notifications_visible_to db (some user_id))

unfoldable pub mark_notification_read : Request → Ref → Db → Result (Notification × Db)
unfolding visible_notification
mark_notification_read request notification_id db = do
  target ←
      or_raise (visible_notification request.before request.actor notification_id)
        tenant_access_not_found
  profile_id ← or_raise target.profile_id tenant_access_not_found
  workspace_id ← or_raise target.workspace_id tenant_access_not_found
  guard (exists (λ (row : Profile). row.id == profile_id) db.profiles) tenant_access_not_found
  guard
      (exists (λ (row : Workspace). row.id == workspace_id && row.profile_id == some profile_id)
        db.workspaces)
      tenant_access_not_found
  context ← resolve_profile_access_context db (some request.actor) (uuid profile_id)
  resolve_workspace_access_context db context (uuid workspace_id) >>= λ workspace_context.
      or_raise (visible_notification db request.actor notification_id) tenant_access_not_found
      >>= λ notification. elim notification.is_read [
        | true ↦ ok (notification, db)
        | false ↦ ok (
          record notification { is_read = true },
          record db {
            notifications =
                save notification.id (λ row. record row { is_read = true }) db.notifications;
          },
        )
      ]
