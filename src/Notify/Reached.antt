-- ===== src/Notify/Reached.antt =====
-- Whom an event reaches, said of the stored rows.
use hustly_tasker.Prelude.{
  ok, or_raise-elim, guard-elim, ok-injective, exists, first, exists_elim, first_sound, ◌==◌,
  nat_eq, string_eq, bool_eq, option_eq, list_eq, ==→≡, Bool-cases, Option-cases, is_some, ℕ, ◌≡◌,
  sym, ap, ◌∙◌, ◌⊎◌, inl, inr, Bool, true, false, ◌&&◌, Option, none, some, Memᴰ, arith,
}
use hustly_tasker.Access.{is_profile_manager}
use hustly_tasker.Notify.Audiences.{
  Audience, is_admin_seat, assigned_audience, submitted_audience, is_review_proof,
  reviewed_audience, commented_audience, audience,
}
use hustly_tasker.Store.{
  profile_status_eq, profile_role_eq, workspace_status_eq, workspace_role_eq, task_status_eq,
  task_priority_eq, deliverable_status_eq, review_status_eq, event_type_eq, WorkspaceRole,
  ReviewStatus, EventType, invitation_role_eq, invitation_status_eq, delivery_status_eq,
  token_purpose_eq, token_status_eq, profile_invitation_key, account_security_token_key, Db,
  user_key, profile_key, profile_membership_key, workspace_key, workspace_member_key, task_key,
  task_assignment_key, task_comment_key, deliverable_key, review_key, audit_log_key,
  notification_key, period_eq, deadline_eq, ProfileMembership, WorkspaceMember, Task,
  TaskAssignment, TaskComment, Deliverable, AuditLog, get, is_id_text, is_revision,
}

-- The user holds an active assignment of the Task.
abbrev pub IsAssignee : Db → Task → ℕ → Type 0
IsAssignee db task user_id =
    (a : TaskAssignment) × Memᴰ a db.task_assignments
    × (a.task_id ≡ task.id)
    × (a.is_active ≡ true)
    × (a.user_id ≡ user_id)

-- The user has an active Admin seat in the Workspace of the Task.
abbrev pub IsSeatedAdmin : Db → Task → ℕ → Type 0
IsSeatedAdmin db task user_id =
    (s : WorkspaceMember) × Memᴰ s db.workspace_members
    × (s.workspace_id ≡ task.workspace_id)
    × (s.user_id ≡ user_id)
    × (s.is_active ≡ true)
    × (s.role ≡ WorkspaceRole.admin)

-- The user submitted a deliverable of the Task.
abbrev pub IsUploader : Db → Task → ℕ → Type 0
IsUploader db task user_id =
    (d : Deliverable) × Memᴰ d db.deliverables
    × (d.task_id ≡ task.id)
    × (d.uploaded_by_id ≡ user_id)

-- An assignment is for the assignee, a submission for those who review, a decision for the submitter
-- and a comment for the creator and the assignee of the Task.
unfoldable pub IsReached : Db → Task → EventType → ProfileMembership → Type 0
IsReached db task EventType.task_assigned m = IsAssignee db task m.user_id
IsReached db task EventType.review_submitted m =
    (is_profile_manager m.role ≡ true) ⊎ IsSeatedAdmin db task m.user_id
IsReached db task EventType.review_approved m = IsUploader db task m.user_id
IsReached db task EventType.review_changes_requested m = IsUploader db task m.user_id
IsReached db task EventType.task_commented m =
    (m.user_id ≡ task.created_by_id) ⊎ IsAssignee db task m.user_id

unfoldable pub reaches : Audience → ProfileMembership → Bool
reaches none m = false
reaches (some reached) m = reached m

assigned_audience-IsReached :
    (db : Db) (event : AuditLog) (task : Task) (reached : Audience) (m : ProfileMembership)
    → assigned_audience db event task ≡ ok reached
    → reaches reached m ≡ true
    → IsAssignee db task m.user_id
unfolding assigned_audience reaches
assigned_audience-IsReached db event task reached m h hit =
    guard-elim (event.entity_name == "TaskAssignment") _ _ h λ _ h₁.
      let test : TaskAssignment → Bool =
        λ a. a.id == event.entity_id && a.task_id == task.id && a.is_active in
      let there = ap (λ o. reaches o m) (ok-injective h₁) ∙ hit in
      elim (Option-cases (first test db.task_assignments)) [
        | inl missing ↦ absurd (ground (arith, rw missing at there))
        | inr (a, found) ↦
            let (fits, stored) = first_sound test db.task_assignments found in
            let here = rw found at there in
            (
              a,
              stored,
              ==→≡ a.task_id task.id (ground arith),
              ground arith,
              sym (==→≡ m.user_id a.user_id (ground arith)),
            )
      ]

admin_seat :
    (db : Db) (task : Task) (user_id : ℕ)
    → exists (is_admin_seat task.workspace_id user_id) db.workspace_members ≡ true
    → IsSeatedAdmin db task user_id
unfolding is_admin_seat
admin_seat db task user_id h =
    let (s, stored, fits) =
      exists_elim (is_admin_seat task.workspace_id user_id) db.workspace_members h in
    (
      s,
      stored,
      ==→≡ s.workspace_id task.workspace_id (ground arith),
      ==→≡ s.user_id user_id (ground arith),
      ground arith,
      ==→≡ s.role WorkspaceRole.admin (ground arith),
    )

submitted_audience-IsReached :
    (db : Db) (event : AuditLog) (actor : ℕ) (task : Task) (deliverable : Option Deliverable)
    (reached : Audience) (m : ProfileMembership)
    → submitted_audience db event actor task deliverable ≡ ok reached
    → reaches reached m ≡ true
    → (is_profile_manager m.role ≡ true) ⊎ IsSeatedAdmin db task m.user_id
unfolding submitted_audience reaches
submitted_audience-IsReached db event actor task none reached m h hit = cc
submitted_audience-IsReached db event actor task (some deliverable) reached m h hit =
    guard-elim
      (event.entity_name == "Deliverable"
        && event.entity_id == deliverable.id
        && exists
            (λ (d : Deliverable).
              d.id == event.entity_id
              && d.task_id == task.id
              && d.uploaded_by_id == actor
              && is_revision (get "revision" event.metadata) d.revision)
            db.deliverables)
      _ _ h
      λ _ h₁.
        let there = ap (λ o. reaches o m) (ok-injective h₁) ∙ hit in
        elim (Bool-cases (is_profile_manager m.role)) [
          | inl manager ↦ inl manager
          | inr other ↦ inr (admin_seat db task m.user_id (ground arith))
        ]

reviewed_audience-IsReached :
    (db : Db) (event : AuditLog) (actor : ℕ) (task : Task) (status : ReviewStatus)
    (deliverable : Option Deliverable) (reached : Audience) (m : ProfileMembership)
    → reviewed_audience db event actor task status deliverable ≡ ok reached
    → reaches reached m ≡ true
    → IsUploader db task m.user_id
unfolding reviewed_audience reaches is_review_proof
reviewed_audience-IsReached db event actor task status none reached m h hit = cc
reviewed_audience-IsReached db event actor task status (some deliverable) reached m h hit =
    guard-elim
      (event.entity_name == "Review"
        && is_id_text (get "deliverable_id" event.metadata) deliverable.id)
      _ _ h
      λ _ h₁.
        or_raise-elim
          (first (is_review_proof db event actor task status deliverable) db.deliverables) _ _ h₁
          λ proof found h₂.
            let there = ap (λ o. reaches o m) (ok-injective h₂) ∙ hit in
            let (fits, stored) =
              first_sound (is_review_proof db event actor task status deliverable) db.deliverables
                found in
            (
              proof,
              stored,
              ==→≡ proof.task_id task.id (ground arith),
              sym (==→≡ m.user_id proof.uploaded_by_id there),
            )

commented_audience-IsReached :
    (db : Db) (event : AuditLog) (actor : ℕ) (task : Task) (reached : Audience)
    (m : ProfileMembership)
    → commented_audience db event actor task ≡ ok reached
    → reaches reached m ≡ true
    → (m.user_id ≡ task.created_by_id) ⊎ IsAssignee db task m.user_id
unfolding commented_audience reaches
commented_audience-IsReached db event actor task reached m h hit =
    guard-elim
      (event.entity_name == "TaskComment"
        && exists
            (λ (c : TaskComment).
              c.id == event.entity_id && c.task_id == task.id && c.user_id == actor)
            db.task_comments)
      _ _ h
      λ _ h₁.
        let there = ap (λ o. reaches o m) (ok-injective h₁) ∙ hit in
        let test : TaskAssignment → Bool =
          λ a. a.task_id == task.id && a.is_active && a.user_id == m.user_id in
        elim (Bool-cases (
          exists (λ (c : TaskComment). c.id == event.entity_id && is_some c.deleted_at)
            db.task_comments)) [
              | inl deleted ↦ absurd (ground (arith, rw deleted at there))
              | inr kept ↦
                  let here = rw kept at there in
                  elim (Bool-cases (m.user_id == task.created_by_id)) [
                    | inl creator ↦ inl (==→≡ m.user_id task.created_by_id creator)
                    | inr other ↦
                        let (a, stored, fits) =
                          exists_elim test db.task_assignments (ground arith) in
                        inr (
                          a,
                          stored,
                          ==→≡ a.task_id task.id (ground arith),
                          ground arith,
                          ==→≡ a.user_id m.user_id (ground arith),
                        )
                  ]
            ]

pub audience-IsReached :
    (db : Db) (event : AuditLog) (actor : ℕ) (task : Task) (event_type : EventType)
    (deliverable : Option Deliverable) (reached : Audience) (m : ProfileMembership)
    → audience db event actor task event_type deliverable ≡ ok reached
    → reaches reached m ≡ true
    → IsReached db task event_type m
unfolding audience IsReached
audience-IsReached db event actor task EventType.task_assigned deliverable reached m h hit =
    assigned_audience-IsReached db event task reached m h hit
audience-IsReached db event actor task EventType.review_submitted deliverable reached m h hit =
    submitted_audience-IsReached db event actor task deliverable reached m h hit
audience-IsReached db event actor task EventType.review_approved deliverable reached m h hit =
    reviewed_audience-IsReached db event actor task ReviewStatus.approved deliverable reached m h
      hit
audience-IsReached db event actor task EventType.review_changes_requested deliverable reached m h
      hit =
    reviewed_audience-IsReached db event actor task ReviewStatus.request_change deliverable reached
      m h hit
audience-IsReached db event actor task EventType.task_commented deliverable reached m h hit =
    commented_audience-IsReached db event actor task reached m h hit
