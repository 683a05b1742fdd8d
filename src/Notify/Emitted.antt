-- ===== src/Notify/Emitted.antt =====
-- What an emission adds to the notifications.
use hustly_tasker.Prelude.{
  nat_eq, string_eq, bool_eq, option_eq, list_eq, ℕ, ◌≡◌, ◌≢◌, ◌⊎◌, true, false, some, List, Memᴰ,
}
use hustly_tasker.Notify.Emit.{new_notification}
use hustly_tasker.Notify.Reached.{IsReached}
use hustly_tasker.Notify.Readers.{is_readable_membership}
use hustly_tasker.Store.{
  profile_status_eq, profile_role_eq, workspace_status_eq, workspace_role_eq, task_status_eq,
  task_priority_eq, deliverable_status_eq, review_status_eq, event_type_eq, EventType,
  invitation_role_eq, invitation_status_eq, delivery_status_eq, token_purpose_eq, token_status_eq,
  profile_invitation_key, account_security_token_key, Db, user_key, profile_key,
  profile_membership_key, workspace_key, workspace_member_key, task_key, task_assignment_key,
  task_comment_key, deliverable_key, review_key, audit_log_key, notification_key, period_eq,
  deadline_eq, ProfileMembership, Task, AuditLog, Notification,
}

-- What a delivery to `users` did: it keeps every notification, adds only unread ones of the event for
-- these users, and changes no other table.
record IsDelivery (event_type : EventType) (event : AuditLog) (profile_id : ℕ) (task : Task)
    (users : List ℕ) (db after : Db) : Type 0 where
  frame : after ≡ record db { notifications = after.notifications }
  kept : (x : Notification) → Memᴰ x db.notifications → Memᴰ x after.notifications
  added :
      (x : Notification)
      → Memᴰ x after.notifications
      → Memᴰ x db.notifications
        ⊎ ((u : ℕ) × Memᴰ u users
            × ((id : ℕ) × (x ≡ new_notification id u event_type event profile_id task)))

-- An unread notification of the event about the stored Task, for a stored membership that may read the
-- Task and that the event reaches, and whose user is not the actor.
pub record IsAnnouncement (db : Db) (actor event_id task_id : ℕ) (event_type : EventType)
    (notification : Notification) : Type 0 where
  pub task : Task
  pub task_stored : Memᴰ task db.tasks
  pub named : task.id ≡ task_id
  pub profile_id : ℕ
  pub reader : ProfileMembership
  pub stored : Memᴰ reader db.profile_memberships
  pub readable : is_readable_membership db profile_id task.workspace_id reader ≡ true
  pub reached : IsReached db task event_type reader
  pub user : notification.user_id ≡ reader.user_id
  pub other : notification.user_id ≢ actor
  pub of_event : notification.event_id ≡ some event_id
  pub of_type : notification.event_type ≡ some event_type
  pub of_profile : notification.profile_id ≡ some profile_id
  pub of_workspace : notification.workspace_id ≡ some task.workspace_id
  pub of_task : notification.task_id ≡ some task_id
  pub unread : notification.is_read ≡ false

-- What an emission did: every notification is kept, those that are new announce the event, and no
-- other table has changed.
pub record IsEmission (actor event_id task_id : ℕ) (event_type : EventType) (db after : Db)
    : Type 0 where
  pub frame : after ≡ record db { notifications = after.notifications }
  pub kept : (x : Notification) → Memᴰ x db.notifications → Memᴰ x after.notifications
  pub added :
      (x : Notification)
      → Memᴰ x after.notifications
      → Memᴰ x db.notifications ⊎ IsAnnouncement db actor event_id task_id event_type x
