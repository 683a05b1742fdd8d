-- ===== src/Notify/Delivery.antt =====
-- What an emission writes, and to whom.
use hustly_tasker.Notify.Audiences.{Audience, audience}
use hustly_tasker.Notify.Emit.{
  is_delivery_of, deliver, emit_task_notifications, is_event_action, matches_task_context,
  new_notification, users_of, recipients, is_eligible, emit_to, emit_if,
}
use hustly_tasker.Prelude.{
  ok-injective, first, Option-cases, ℕ, ◌≡◌, ap, subst, inl, inr, Option, List, [], ◌∷◌, ok,
  >>=-elim, or_raise-elim, guard-elim, insert, ◌==◌, nat_eq, string_eq, bool_eq, option_eq, list_eq,
  suc, ◌&&◌, exists, uncons, Bool-cases, refl, sym, ◌≢◌, Bool, true, false, none, some, Memᴰ,
  rows-mem, not, arith,
}
use hustly_tasker.Store.{
  EventType, Db, SameButLogs-refl, SameButLogs, user_key, profile_key, profile_membership_key,
  workspace_key, workspace_member_key, task_key, task_assignment_key, task_comment_key,
  deliverable_key, review_key, audit_log_key, notification_key, Task, Deliverable, AuditLog,
  Notification, profile_status_eq, profile_role_eq, workspace_status_eq, workspace_role_eq,
  task_status_eq, task_priority_eq, deliverable_status_eq, review_status_eq, event_type_eq,
  SameButLogs-trans, SameButLogs-logs, period_eq, deadline_eq, Profile, Workspace,
  ProfileMembership,
}
use hustly_tasker.Notify.Readers.{is_readable_membership}

-- Emitting writes notifications only.
deliver-SameButLogs :
    (ids : ℕ → ℕ) (event_type : EventType) (event : AuditLog) (profile_id : ℕ) (task : Task)
    (users : List ℕ) (db : Db) {created : List Notification} {after : Db}
    → deliver ids event_type event profile_id task users db ≡ ok (created, after)
    → SameButLogs db after
unfolding deliver
deliver-SameButLogs ids event_type event profile_id task [] db h =
    subst (SameButLogs db) (ap (λ p. p.1) (ok-injective h)) (SameButLogs-refl db)
deliver-SameButLogs ids event_type event profile_id task (u ∷ us) db {after = after} h =
    elim (Option-cases (first (is_delivery_of event.id u) db.notifications)) [
      | inl new ↦
          >>=-elim
            (insert (new_notification (ids 0) u event_type event profile_id task) db.notifications)
            _ (rw (new, deliver) at h)
            λ table inserted h₁.
              >>=-elim
                (deliver (λ k. ids (suc k)) event_type event profile_id task us
                  (record db { notifications = table }))
                _ h₁
                λ result delivered h₂. subst (SameButLogs db) (ap (λ p. p.1) (ok-injective h₂)) (
                  SameButLogs-trans (SameButLogs-logs db db.audit_logs table) (
                    deliver-SameButLogs (λ k. ids (suc k)) event_type event profile_id task us
                      (record db { notifications = table }) delivered))
      | inr (existing, found) ↦
          >>=-elim (deliver (λ k. ids (suc k)) event_type event profile_id task us db) _
            (rw (found, deliver) at h)
            λ result delivered h₂. subst (SameButLogs db) (ap (λ p. p.1) (ok-injective h₂)) (
              deliver-SameButLogs (λ k. ids (suc k)) event_type event profile_id task us db
                delivered)
    ]

module _ (ids : ℕ → ℕ) (event : AuditLog) (actor : ℕ) (profile_id : ℕ) (task : Task)
    (event_type : EventType) (db : Db) {created : List Notification} {after : Db} where
  emit_to-SameButLogs :
      (reached : Audience)
      → emit_to ids event actor profile_id task event_type db reached ≡ ok (created, after)
      → SameButLogs db after
  unfolding emit_to
  emit_to-SameButLogs none h =
      subst (SameButLogs db) (ap (λ p. p.1) (ok-injective h)) (SameButLogs-refl db)
  emit_to-SameButLogs (some reached) h =
      deliver-SameButLogs ids event_type event profile_id task
        (recipients db profile_id task.workspace_id actor reached) db h

  emit_if-SameButLogs :
      (eligible : Bool) (deliverable : Option Deliverable)
      → emit_if ids event actor profile_id task event_type db eligible deliverable
        ≡ ok (created, after)
      → SameButLogs db after
  unfolding emit_if
  emit_if-SameButLogs false deliverable h =
      subst (SameButLogs db) (ap (λ p. p.1) (ok-injective h)) (SameButLogs-refl db)
  emit_if-SameButLogs true deliverable h =
      >>=-elim (audience db event actor task event_type deliverable) _ h
        λ reached _ h₁. emit_to-SameButLogs reached h₁

-- An emission that succeeds leaves every table as it was but the audit logs and the notifications.
pub emit-SameButLogs :
    (ids : ℕ → ℕ) (event : AuditLog) (actor : ℕ) (task : Task) (event_type : EventType)
    (deliverable : Option Deliverable) (db : Db) {created : List Notification} {after : Db}
    → emit_task_notifications ids event actor task event_type deliverable db ≡ ok (created, after)
    → SameButLogs db after
unfolding emit_task_notifications
emit-SameButLogs ids given actor given_task event_type deliverable db h =
    or_raise-elim (first (λ (e : AuditLog). e.id == given.id) db.audit_logs) _ _ h λ event _ h₁.
      or_raise-elim (first (λ (t : Task). t.id == given_task.id) db.tasks) _ _ h₁ λ task _ h₂.
        or_raise-elim (first (λ (w : Workspace). w.id == task.workspace_id) db.workspaces) _ _ h₂
          λ workspace _ h₃. or_raise-elim workspace.profile_id _ _ h₃ λ profile_id _ h₄.
            or_raise-elim (first (λ (p : Profile). p.id == profile_id) db.profiles) _ _ h₄
              λ profile _ h₅.
                guard-elim
                  (is_event_action event_type event.action
                    && matches_task_context event actor profile_id task)
                  _ _ h₅
                  λ matches h₆.
                    emit_if-SameButLogs ids event actor profile_id task event_type db
                      (is_eligible db actor profile workspace) deliverable h₆

-- A recipient is a reader of the Workspace other than the actor: its user has a membership that
-- `readable_memberships` admits and that the audience reaches.
users_of-mem :
    (members : List ProfileMembership) {u : ℕ}
    → Memᴰ u (users_of members)
    → (m : ProfileMembership) × Memᴰ m members × (m.user_id ≡ u)
unfolding users_of
users_of-mem [] m = elim m [ ]
users_of-mem (x ∷ xs) {u} m =
    elim (Bool-cases (exists (λ (other : ProfileMembership). other.user_id == x.user_id) xs)) [
      | inl e ↦
          let (y, my, same) = users_of-mem xs (rw (e, users_of) at m) in (y, Memᴰ.tail my, same)
      | inr e ↦ elim (uncons (rw (e, users_of) at m)) [
        | inl same ↦ (x, Memᴰ.head refl, sym same)
        | inr m' ↦ let (y, my, same) = users_of-mem xs m' in (y, Memᴰ.tail my, same)
      ]
    ]

-- Every recipient is not the actor, and is the user of a stored membership that may read the Task and
-- that the audience of the event reaches.
pub recipients_read :
    (db : Db) (profile_id workspace_id actor : ℕ) (reached : ProfileMembership → Bool) {u : ℕ}
    → Memᴰ u (recipients db profile_id workspace_id actor reached)
    → (u ≢ actor)
      × ((m : ProfileMembership) × Memᴰ m db.profile_memberships
          × (m.user_id ≡ u)
          × (is_readable_membership db profile_id workspace_id m ≡ true)
          × (reached m ≡ true))
unfolding recipients
recipients_read db profile_id workspace_id actor reached {u} h =
    let (m, mem, same) = users_of-mem _ h in
    let (stored, passes) =
      rows-mem
        (λ (membership : ProfileMembership).
          is_readable_membership db profile_id workspace_id membership
          && reached membership
          && not (membership.user_id == actor))
        db.profile_memberships mem in
    (ground arith, (m, stored, same, ground arith, ground arith))
