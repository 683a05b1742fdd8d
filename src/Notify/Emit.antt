-- ===== src/Notify/Emit.antt =====
-- backend/apps/notifications/services.py, `emit_task_notifications`, with the fixed texts of
-- backend/apps/notifications/content.py.
use hustly_tasker.Notify.Audiences.{Audience, audience}
use hustly_tasker.Notify.Readers.{is_readable_membership}
use hustly_tasker.Prelude.{
  ◌>>=◌, ◌>>◌, guard, or_raise, Result, validation_error, exists, rows, first, insert,
  if◌then◌else◌, ◌==◌, nat_eq, string_eq, bool_eq, option_eq, list_eq, ℕ, suc, String, Bool, true,
  false, ◌&&◌, ◌||◌, not, Option, none, some, List, [], ◌∷◌, ok,
}
use hustly_tasker.Store.{
  profile_status_eq, profile_role_eq, workspace_status_eq, workspace_role_eq, task_status_eq,
  task_priority_eq, deliverable_status_eq, review_status_eq, event_type_eq, ProfileStatus,
  WorkspaceStatus, EventType, Db, get, is_id_text, user_key, profile_key, profile_membership_key,
  workspace_key, workspace_member_key, task_key, task_assignment_key, task_comment_key,
  deliverable_key, review_key, audit_log_key, notification_key, period_eq, deadline_eq, Profile,
  ProfileMembership, Workspace, Task, Deliverable, AuditLog, Notification,
}

-- `EVENT_ACTIONS[event_type]`
unfoldable pub is_event_action : EventType → String → Bool
is_event_action EventType.task_assigned action =
    action == "task.assigned" || action == "task.reassigned"
is_event_action EventType.review_submitted action = action == "task.deliverable.submitted"
is_event_action EventType.review_approved action = action == "task.deliverable.approved"
is_event_action EventType.review_changes_requested action =
    action == "task.deliverable.changes_requested"
is_event_action EventType.task_commented action = action == "task.comment.created"

-- `EVENT_CONTENT[event_type]`
unfoldable pub event_content : EventType → String × String
event_content EventType.task_assigned = ("Task assigned", "A task has been assigned to you.")
event_content EventType.review_submitted =
    ("Review requested", "A task deliverable is ready for internal review.")
event_content EventType.review_approved =
    ("Review approved", "A task deliverable has been approved.")
event_content EventType.review_changes_requested =
    ("Changes requested", "A task deliverable needs changes.")
event_content EventType.task_commented =
    ("Task comment", "A new comment was added to a task you participate in.")

-- The metadata of the event names the Profile, the Workspace and the Task.
unfoldable pub matches_task_context : AuditLog → ℕ → ℕ → Task → Bool
matches_task_context event actor profile_id task =
    event.user_id == some actor
    && is_id_text (get "profile_id" event.metadata) profile_id
    && is_id_text (get "workspace_id" event.metadata) task.workspace_id
    && is_id_text (get "task_id" event.metadata) task.id

-- The distinct users of the rows; the query leaves their order open.
unfoldable pub users_of : List ProfileMembership → List ℕ
users_of [] = []
users_of (m ∷ ms) =
    let rest = users_of ms in
    if exists (λ (other : ProfileMembership). other.user_id == m.user_id) ms
    then rest
    else m.user_id ∷ rest

-- The recipients: readable memberships in the audience, without the actor's.
unfoldable pub recipients : Db → ℕ → ℕ → ℕ → (ProfileMembership → Bool) → List ℕ
unfolding users_of
recipients db profile_id workspace_id actor reached = users_of (
    rows
      (λ membership.
        is_readable_membership db profile_id workspace_id membership
        && reached membership
        && not (membership.user_id == actor))
      db.profile_memberships)

unfoldable pub new_notification : ℕ → ℕ → EventType → AuditLog → ℕ → Task → Notification
unfolding event_content
new_notification id user_id event_type event profile_id task = record {
  id = id;
  user_id = user_id;
  title = (event_content event_type).0;
  message = (event_content event_type).1;
  is_read = false;
  event_type = some event_type;
  profile_id = some profile_id;
  workspace_id = some task.workspace_id;
  task_id = some task.id;
  event_id = some event.id;
}

unfoldable pub is_delivery_of : ℕ → ℕ → Notification → Bool
is_delivery_of event_id user_id notification =
    notification.event_id == some event_id && notification.user_id == user_id

-- The loop of `get_or_create` over the users: a notification that is there is kept as it is.
unfoldable pub deliver :
    (ℕ → ℕ) → EventType → AuditLog → ℕ → Task → List ℕ → Db → Result (List Notification × Db)
unfolding new_notification is_delivery_of
deliver ids event_type event profile_id task [] db = ok ([], db)
deliver ids event_type event profile_id task (user_id ∷ users) db =
    let again = deliver (λ k. ids (suc k)) event_type event profile_id task users in
    elim (first (is_delivery_of event.id user_id) db.notifications) [
      | some existing ↦ do (others, after) ← again db; ok (existing ∷ others, after)
      | none ↦ do
        let created = new_notification (ids 0) user_id event_type event profile_id task
        notifications ← insert created db.notifications
        (others, after) ← again (record db { notifications = notifications })
        ok (created ∷ others, after)
    ]

-- The event still reaches somebody: both tenant scopes are active, and the actor may read.
unfoldable pub is_eligible : Db → ℕ → Profile → Workspace → Bool
is_eligible db actor profile workspace =
    profile.status == ProfileStatus.active
    && workspace.status == WorkspaceStatus.active
    && exists (λ m. is_readable_membership db profile.id workspace.id m && m.user_id == actor)
        db.profile_memberships

module _ (ids : ℕ → ℕ) (event : AuditLog) (actor : ℕ) (profile_id : ℕ) (task : Task)
    (event_type : EventType) (db : Db) where
  -- The end of `emit_task_notifications`, from the audience on.
  unfoldable pub emit_to : Audience → Result (List Notification × Db)
  unfolding recipients deliver
  emit_to none = ok ([], db)
  emit_to (some reached) =
      deliver ids event_type event profile_id task
        (recipients db profile_id task.workspace_id actor reached) db

  -- Historical replay cannot create notifications after eligibility ends.
  unfoldable pub emit_if : Bool → Option Deliverable → Result (List Notification × Db)
  unfolding audience emit_to
  emit_if false deliverable = ok ([], db)
  emit_if true deliverable = audience db event actor task event_type deliverable >>= emit_to

-- `emit_task_notifications`
unfoldable pub emit_task_notifications :
    (ℕ → ℕ)
    → AuditLog
    → ℕ
    → Task
    → EventType
    → Option Deliverable
    → Db
    → Result (List Notification × Db)
unfolding emit_if is_eligible
emit_task_notifications ids given actor given_task event_type deliverable db = do
  event ←
      or_raise (first (λ (e : AuditLog). e.id == given.id) db.audit_logs) (validation_error "event")
  task ← or_raise (first (λ (t : Task). t.id == given_task.id) db.tasks) (validation_error "event")
  workspace ←
      or_raise (first (λ (w : Workspace). w.id == task.workspace_id) db.workspaces)
        (validation_error "event")
  profile_id ← or_raise workspace.profile_id (validation_error "event")
  profile ←
      or_raise (first (λ (p : Profile). p.id == profile_id) db.profiles) (validation_error "event")
  guard
      (is_event_action event_type event.action && matches_task_context event actor profile_id task)
      (validation_error "event")
  emit_if ids event actor profile_id task event_type db (is_eligible db actor profile workspace)
      deliverable
