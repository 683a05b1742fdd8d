-- ===== src/Tasks/Holders.antt =====
-- `assign_task` keeps at most one active assignment for each Task.
use hustly_tasker.Store.{
  task_assignment_key, profile_status_eq, profile_role_eq, workspace_status_eq, workspace_role_eq,
  task_status_eq, task_priority_eq, deliverable_status_eq, review_status_eq, event_type_eq, Db,
  FieldRules, user_key, profile_key, profile_membership_key, workspace_key, workspace_member_key,
  task_key, task_comment_key, deliverable_key, review_key, audit_log_key, notification_key,
  period_eq, deadline_eq, TaskAssignment, TaskStatus, EventType, Request, ProfileMembership,
  Workspace, Task, AuditLog,
}
use hustly_tasker.Tasks.Assigning.{
  is_for, clashes_assignment, full_clean_assignment, end_assignment, is_assignable_membership,
  is_editor_of, is_active_for, begin_assignment, is_assignable, is_held_by, write_assignment,
  assign_task,
}
use hustly_tasker.Prelude.{
  guard-elim, exists, save, exists_none, ◌==◌, nat_eq, string_eq, bool_eq, option_eq, list_eq,
  UniqueBy, update_where-mem, save-UniqueBy, ◌≡◌, refl, ap, inl, inr, true, false, not, Option,
  none, some, List, Memᴰ, arith, ok, integrity_as, >>=-elim, or_raise-elim, integrity_as-eq-ok,
  ok-injective, guard-eq-ok, task_assignment_conflict, first, first_sound, insert, Ref, ==→≡,
  Option-cases, mem-append_one, insert_lem, ℕ, ◌+◌, sym, ◌∙◌, subst, ◌⊎◌,
}
use hustly_tasker.Notify.Delivery.{emit-SameButLogs}
use hustly_tasker.Notify.{emit_task_notifications}
use hustly_tasker.Tasks.Effects.{status_then_audit}
use hustly_tasker.Tasks.Saves.{
  lock_task, create_audit_log, save_task, save_task_status, require_manager,
}
use hustly_tasker.Workspace.{lock_workspace_mutation_context}

-- Of the assignments of one Task at most one is active.
abbrev pub OneHolder : List TaskAssignment → Type 0
OneHolder assignments =
    (a b : TaskAssignment)
    → Memᴰ a assignments
    → Memᴰ b assignments
    → a.task_id ≡ b.task_id
    → a.is_active ≡ true
    → b.is_active ≡ true
    → a ≡ b

OneHolder-end :
    (active : Option TaskAssignment) (db : Db)
    → UniqueBy task_assignment_key.key db.task_assignments
    → OneHolder db.task_assignments
    → UniqueBy task_assignment_key.key (end_assignment active db).task_assignments
      × OneHolder (end_assignment active db).task_assignments
unfolding end_assignment
OneHolder-end none db unique one = (unique, one)
OneHolder-end (some active) db unique one =
    let f : TaskAssignment → TaskAssignment = λ row. record row { is_active = false } in
    let kept : (x : TaskAssignment)
        → Memᴰ x (save active.id f db.task_assignments)
        → x.is_active ≡ true
        → Memᴰ x db.task_assignments =
      λ x mx live.
        let (old, mo, c) =
          update_where-mem (λ (r : TaskAssignment). r.id == active.id) f db.task_assignments mx in
        elim c [
          | inl (_, e) ↦ absurd (ground (arith, ap (λ (r : TaskAssignment). r.is_active) e))
          | inr (_, e) ↦ rw e mo
        ] in
    (
      save-UniqueBy active.id f db.task_assignments (λ x. refl) unique,
      λ a b ma mb same la lb. one a b (kept a ma la) (kept b mb lb) same la lb,
    )

-- The row that `full_clean` accepted has no active rival.
no_rival :
    (rules : FieldRules) (db : Db) (new row : TaskAssignment)
    → full_clean_assignment rules db new ≡ ok tt
    → Memᴰ row db.task_assignments
    → (row.id == new.id) ≡ false
    → row.task_id ≡ new.task_id
    → new.is_active ≡ true
    → row.is_active ≡ true
    → false ≡ true
unfolding full_clean_assignment clashes_assignment
no_rival rules db new row h m away same live held =
    guard-elim (rules.task_assignment new) _ _ h λ _ h₁.
      let free = guard-eq-ok (not (exists (clashes_assignment new) db.task_assignments)) _ h₁ in
      let no = exists_none (clashes_assignment new) db.task_assignments (ground arith) m in
      ground arith

-- A row that is added, or an earlier one that is made active, is the only active one of its Task.
OneHolder-add :
    (rules : FieldRules) (db : Db) (new : TaskAssignment) {table : List TaskAssignment}
    → full_clean_assignment rules db new ≡ ok tt
    → new.is_active ≡ true
    → ((x : TaskAssignment)
        → Memᴰ x table
        → (x ≡ new) ⊎ (Memᴰ x db.task_assignments × ((x.id == new.id) ≡ false)))
    → OneHolder db.task_assignments
    → OneHolder table
OneHolder-add rules db new h live shape one a b ma mb same la lb = elim (shape a ma) [
  | inl ea ↦ elim (shape b mb) [
    | inl eb ↦ ea ∙ sym eb
    | inr (ob, away) ↦
        cc (no_rival rules db new b h ob away (sym same ∙ ap (λ x. x.task_id) ea) live lb)
  ]
  | inr (oa, away) ↦ elim (shape b mb) [
    | inl eb ↦ cc (no_rival rules db new a h oa away (same ∙ ap (λ x. x.task_id) eb) live la)
    | inr (ob, _) ↦ one a b oa ob same la lb
  ]
]

begin_assignment-OneHolder :
    (rules : FieldRules) (request : Request) (task_id user_id : ℕ) (db : Db)
    {assignment : TaskAssignment} {after : Db}
    → UniqueBy task_assignment_key.key db.task_assignments
    → begin_assignment rules request task_id user_id db ≡ ok (assignment, after)
    → OneHolder db.task_assignments
    → OneHolder after.task_assignments
unfolding begin_assignment
begin_assignment-OneHolder rules request task_id user_id db unique h one =
    elim (Option-cases (first (is_for task_id user_id) db.task_assignments)) [
      | inl none_yet ↦
          let new : TaskAssignment = record {
            id = request.new_id 0;
            task_id = task_id;
            user_id = user_id;
            is_active = true;
            assigned_at = request.now;
          } in
          >>=-elim (full_clean_assignment rules db new) _ (rw (none_yet, begin_assignment) at h)
            λ _ clean h₁.
              >>=-elim (integrity_as task_assignment_conflict (insert new db.task_assignments)) _ h₁
                λ table put h₂.
                  let (grown, fresh) =
                    insert_lem new db.task_assignments (integrity_as-eq-ok _ _ put) in
                  subst OneHolder (sym grown ∙ ap (λ p. p.1.task_assignments) (ok-injective h₂)) (
                    OneHolder-add rules db new clean refl
                      (λ x mx. elim (mem-append_one db.task_assignments new mx) [
                        | inl old ↦ inr (old, fresh x old)
                        | inr e ↦ inl e
                      ])
                      one)
      | inr (earlier, found) ↦
          let new : TaskAssignment = record earlier {
            is_active = true;
            assigned_at = request.now;
          } in
          let f : TaskAssignment → TaskAssignment =
            λ row. record row { is_active = true; assigned_at = request.now } in
          let (_, stored) = first_sound (is_for task_id user_id) db.task_assignments found in
          >>=-elim (full_clean_assignment rules db new) _ (rw (found, begin_assignment) at h)
            λ _ clean h₁. subst OneHolder (ap (λ p. p.1.task_assignments) (ok-injective h₁)) (
              OneHolder-add rules db new clean refl
                (λ x mx.
                  let (old, mo, c) =
                    update_where-mem (λ (r : TaskAssignment). r.id == earlier.id) f
                      db.task_assignments mx in
                  elim c [
                    | inl (hit, e) ↦
                        inl (e ∙ ap f (unique old earlier mo stored (==→≡ old.id earlier.id hit)))
                    | inr (miss, e) ↦ inr (rw e mo, rw e miss)
                  ])
                one)
    ]

-- The whole group of writes.
write_assignment-OneHolder :
    (rules : FieldRules) (request : Request) (workspace : Workspace) (task : Task)
    (target : ProfileMembership) (active : Option TaskAssignment) (db : Db)
    {assignment : TaskAssignment} {event : AuditLog} {changed : Task} {after : Db}
    → UniqueBy task_assignment_key.key db.task_assignments
    → write_assignment rules request workspace task target active db
      ≡ ok (assignment, event, changed, after)
    → OneHolder db.task_assignments
    → OneHolder after.task_assignments
unfolding write_assignment save_task
write_assignment-OneHolder rules request workspace task target active db unique h one =
    let (still, ended) = OneHolder-end active db unique one in
    >>=-elim (begin_assignment rules request task.id target.user_id (end_assignment active db)) _ h
      λ (begun, assigned) begin h₁.
        >>=-elim (save_task_status rules task TaskStatus.assigned assigned) _ h₁
          λ (moved_task, saved) moved h₂.
            >>=-elim (create_audit_log _ saved) _ h₂ λ logged audit h₃.
              let same =
                status_then_audit rules task moved_task TaskStatus.assigned _ assigned saved moved
                  audit in
              subst OneHolder
                (sym same.task_assignments ∙ ap (λ p. p.3.task_assignments) (ok-injective h₃))
                (begin_assignment-OneHolder rules request task.id target.user_id
                  (end_assignment active db) still begin ended)

-- If assignment ids are unique and each Task has at most one active assignment, then each Task has at
-- most one after an `assign_task` that succeeds.
pub assign_task-OneHolder :
    (rules : FieldRules) (request : Request)
    (profile_id workspace_id task_id target_membership_id : Ref) (db : Db)
    {assignment : TaskAssignment} {after : Db}
    → UniqueBy task_assignment_key.key db.task_assignments
    → assign_task rules request profile_id workspace_id task_id target_membership_id db
      ≡ ok (assignment, after)
    → OneHolder db.task_assignments
    → OneHolder after.task_assignments
unfolding assign_task
assign_task-OneHolder rules request profile_id workspace_id task_id target_membership_id db unique h
      one =
    >>=-elim (lock_workspace_mutation_context request profile_id workspace_id db) _ h λ scope _ h₁.
      >>=-elim (require_manager db scope.context) _ h₁ λ _ _ h₂.
        >>=-elim (lock_task db scope.workspace task_id) _ h₂ λ task locked h₃.
          guard-elim (is_assignable task.status) _ _ h₃ λ assignable h₄.
            or_raise-elim
              (first (is_assignable_membership db target_membership_id scope.context.profile_id)
                db.profile_memberships)
              _ _ h₄
              λ target _ h₅.
                or_raise-elim
                  (first (is_editor_of scope.workspace.id target.user_id) db.workspace_members) _ _
                  h₅
                  λ editor _ h₆.
                    let active = first (is_active_for task.id) db.task_assignments in
                    guard-elim (not (is_held_by active target.user_id)) _ _ h₆ λ _ h₇.
                      >>=-elim
                        (write_assignment rules request scope.workspace task target active db) _ h₇
                        λ (made, event, changed, audited) written h₈.
                          >>=-elim
                            (emit_task_notifications (λ k. request.new_id (k + 2)) event
                              request.actor changed EventType.task_assigned none audited)
                            _ h₈
                            λ (notified, last) emitted h₉.
                              let frame =
                                emit-SameButLogs _ event request.actor changed
                                  EventType.task_assigned none audited emitted in
                              subst OneHolder
                                (sym frame.task_assignments
                                  ∙ ap (λ p. p.1.task_assignments) (ok-injective h₉))
                                (write_assignment-OneHolder rules request scope.workspace task
                                  target active db unique written one)
