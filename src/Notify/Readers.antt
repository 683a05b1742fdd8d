-- ===== src/Notify/Readers.antt =====
-- backend/apps/notifications/access.py: who may read what happens in a Workspace.
use hustly_tasker.Access.{is_profile_manager, is_effective_role, is_usable}
use hustly_tasker.Prelude.{
  exists, rows, ◌==◌, nat_eq, string_eq, bool_eq, option_eq, list_eq, is_some, ℕ, Bool, ◌&&◌, ◌||◌,
  Option, none, some, List, [],
}
use hustly_tasker.Store.{
  profile_status_eq, profile_role_eq, workspace_status_eq, workspace_role_eq, task_status_eq,
  task_priority_eq, deliverable_status_eq, review_status_eq, event_type_eq, ProfileRole, Db,
  period_eq, deadline_eq, ProfileMembership, WorkspaceMember, Notification,
}

unfoldable pub is_reader_seat : ℕ → ℕ → WorkspaceMember → Bool
is_reader_seat workspace_id user_id member =
    member.workspace_id == workspace_id
    && member.user_id == user_id
    && member.is_active
    && is_effective_role member.role

-- The conditions of `readable_memberships` on one row.
unfoldable pub is_readable_membership : Db → ℕ → ℕ → ProfileMembership → Bool
unfolding is_reader_seat
is_readable_membership db profile_id workspace_id membership =
    membership.profile_id == profile_id
    && is_usable db membership
    && (is_profile_manager membership.role
        || membership.role == ProfileRole.member
          && exists (is_reader_seat workspace_id membership.user_id) db.workspace_members)

unfoldable pub is_own_membership : Db → ℕ → Notification → ProfileMembership → Bool
is_own_membership db user_id notification membership =
    some membership.profile_id == notification.profile_id
    && membership.user_id == user_id
    && is_usable db membership

unfoldable pub is_own_seat : ℕ → Notification → WorkspaceMember → Bool
is_own_seat user_id notification member =
    some member.workspace_id == notification.workspace_id
    && member.user_id == user_id
    && member.is_active
    && is_effective_role member.role

-- The conditions of `notifications_visible_to` on one row.
unfoldable pub is_visible_notification : Db → ℕ → Notification → Bool
unfolding is_own_membership is_own_seat
is_visible_notification db user_id notification =
    notification.user_id == user_id
    && is_some notification.event_type
    && is_some notification.event_id
    && exists
        (λ task.
          some task.id == notification.task_id
          && some task.workspace_id == notification.workspace_id)
        db.tasks
    && exists
        (λ workspace.
          some workspace.id == notification.workspace_id
          && is_some notification.profile_id
          && workspace.profile_id == notification.profile_id)
        db.workspaces
    && (exists
          (λ membership.
            is_own_membership db user_id notification membership
            && is_profile_manager membership.role)
          db.profile_memberships
        || exists
            (λ membership.
              is_own_membership db user_id notification membership
              && membership.role == ProfileRole.member)
            db.profile_memberships
          && exists (is_own_seat user_id notification) db.workspace_members)

unfoldable pub notifications_visible_to : Db → Option ℕ → List Notification
unfolding is_visible_notification
notifications_visible_to db none = []
notifications_visible_to db (some user_id) =
    rows (is_visible_notification db user_id) db.notifications
