-- ===== src/Notify/Audiences.antt =====
-- backend/apps/notifications/services.py, the conditions of `emit_task_notifications` on the event
-- and its recipients, by event type.
use hustly_tasker.Access.{is_profile_manager}
use hustly_tasker.Prelude.{
  ◌>>=◌, ◌>>◌, guard, or_raise, Result, validation_error, exists, first, if◌then◌else◌, ◌==◌,
  nat_eq, string_eq, bool_eq, option_eq, list_eq, is_some, ℕ, Bool, ◌&&◌, ◌||◌, Option, none, some,
  err, ok,
}
use hustly_tasker.Store.{
  profile_status_eq, profile_role_eq, workspace_status_eq, workspace_role_eq, task_status_eq,
  task_priority_eq, deliverable_status_eq, review_status_eq, event_type_eq, ProfileRole,
  WorkspaceRole, ReviewStatus, EventType, Db, get, is_id_text, is_revision, user_key, profile_key,
  profile_membership_key, workspace_key, workspace_member_key, task_key, task_assignment_key,
  task_comment_key, deliverable_key, review_key, audit_log_key, notification_key, period_eq,
  deadline_eq, ProfileMembership, WorkspaceMember, Task, TaskAssignment, TaskComment, Deliverable,
  Review, AuditLog,
}

-- What an event type adds to the condition on a recipient's membership; none for an event that
-- no longer reaches anybody (`return []`).
abbrev pub Audience : Type 0
Audience = Option (ProfileMembership → Bool)

unfoldable pub is_editor_seat : ℕ → ℕ → WorkspaceMember → Bool
is_editor_seat workspace_id user_id member =
    member.workspace_id == workspace_id
    && member.user_id == user_id
    && member.is_active
    && member.role == WorkspaceRole.member

unfoldable pub is_admin_seat : ℕ → ℕ → WorkspaceMember → Bool
is_admin_seat workspace_id user_id member =
    member.workspace_id == workspace_id
    && member.user_id == user_id
    && member.is_active
    && member.role == WorkspaceRole.admin

unfoldable pub assigned_audience : Db → AuditLog → Task → Result Audience
assigned_audience db event task = do
  guard (event.entity_name == "TaskAssignment") (validation_error "event")
  ok
      (elim (first
        (λ (a : TaskAssignment). a.id == event.entity_id && a.task_id == task.id && a.is_active)
        db.task_assignments) [
          | none ↦ none
          | some assignment ↦ some λ membership.
              membership.user_id == assignment.user_id
              && membership.role == ProfileRole.member
              && is_id_text (get "target_profile_membership_id" event.metadata) membership.id
              && exists (is_editor_seat task.workspace_id membership.user_id) db.workspace_members
        ])

unfoldable pub submitted_audience : Db → AuditLog → ℕ → Task → Option Deliverable → Result Audience
submitted_audience db event actor task none = err (validation_error "event")
submitted_audience db event actor task (some deliverable) = do
  guard
      (event.entity_name == "Deliverable"
        && event.entity_id == deliverable.id
        && exists
            (λ (d : Deliverable).
              d.id == event.entity_id
              && d.task_id == task.id
              && d.uploaded_by_id == actor
              && is_revision (get "revision" event.metadata) d.revision)
            db.deliverables)
      (validation_error "event")
  ok (
      some λ membership.
        is_profile_manager membership.role
        || membership.role == ProfileRole.member
          && exists (is_admin_seat task.workspace_id membership.user_id) db.workspace_members)

-- The deliverable of the review that the event names, if the review is the actor's decision.
unfoldable pub is_review_proof :
    Db → AuditLog → ℕ → Task → ReviewStatus → Deliverable → Deliverable → Bool
is_review_proof db event actor task status deliverable row =
    row.id == deliverable.id
    && row.task_id == task.id
    && is_revision (get "revision" event.metadata) row.revision
    && exists
        (λ (review : Review).
          review.id == event.entity_id
          && review.reviewer_id == actor
          && review.status == status
          && review.deliverable_id == row.id)
        db.reviews

unfoldable pub reviewed_audience :
    Db → AuditLog → ℕ → Task → ReviewStatus → Option Deliverable → Result Audience
reviewed_audience db event actor task status none = err (validation_error "event")
reviewed_audience db event actor task status (some deliverable) = do
  guard
      (event.entity_name == "Review"
        && is_id_text (get "deliverable_id" event.metadata) deliverable.id)
      (validation_error "event")
  proof ←
      or_raise (first (is_review_proof db event actor task status deliverable) db.deliverables)
        (validation_error "event")
  ok (some λ membership. membership.user_id == proof.uploaded_by_id)

unfoldable pub commented_audience : Db → AuditLog → ℕ → Task → Result Audience
commented_audience db event actor task = do
  guard
      (event.entity_name == "TaskComment"
        && exists
            (λ (c : TaskComment).
              c.id == event.entity_id && c.task_id == task.id && c.user_id == actor)
            db.task_comments)
      (validation_error "event")
  ok (
      if exists (λ (c : TaskComment). c.id == event.entity_id && is_some c.deleted_at)
        db.task_comments
      then none
      else some λ membership.
        membership.user_id == task.created_by_id
        || exists
            (λ (a : TaskAssignment).
              a.task_id == task.id && a.is_active && a.user_id == membership.user_id)
            db.task_assignments)

unfoldable pub audience :
    Db → AuditLog → ℕ → Task → EventType → Option Deliverable → Result Audience
unfolding assigned_audience submitted_audience reviewed_audience commented_audience
audience db event actor task EventType.task_assigned deliverable = assigned_audience db event task
audience db event actor task EventType.review_submitted deliverable =
    submitted_audience db event actor task deliverable
audience db event actor task EventType.review_approved deliverable =
    reviewed_audience db event actor task ReviewStatus.approved deliverable
audience db event actor task EventType.review_changes_requested deliverable =
    reviewed_audience db event actor task ReviewStatus.request_change deliverable
audience db event actor task EventType.task_commented deliverable =
    commented_audience db event actor task
