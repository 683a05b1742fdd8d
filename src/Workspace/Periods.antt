-- ===== src/Workspace/Periods.antt =====
-- `create_workspace` keeps one Workspace for each Profile and period.
use hustly_tasker.Store.{
  workspace_key, profile_status_eq, profile_role_eq, workspace_status_eq, workspace_role_eq,
  task_status_eq, task_priority_eq, deliverable_status_eq, review_status_eq, event_type_eq, Db,
  period_eq, deadline_eq, Period, Workspace, ProfileStatus, Request, FieldRules, user_key,
  profile_key, profile_membership_key, workspace_member_key, task_key, task_assignment_key,
  task_comment_key, deliverable_key, review_key, audit_log_key, notification_key, Value,
}
use hustly_tasker.Prelude.{
  exists_none, ◌==◌, nat_eq, string_eq, bool_eq, option_eq, list_eq, ==-refl, mem-append_one, ℕ,
  ◌≡◌, sym, ap, ◌∙◌, inl, inr, true, false, ◌&&◌, some, List, [], ◌∷◌, ◌++◌, Memᴰ, arith,
  integrity_as, >>=-elim, or_raise-elim, guard-elim, integrity_as-eq-ok, ok-injective, Text, first,
  insert, Ref, insert_lem, refl, subst, not, Option, ok, String,
}
use hustly_tasker.Workspace.Lifecycle.{
  has_period, new_workspace_row, save_new_workspace, create_workspace,
}
use hustly_tasker.Access.{is_profile_manager, resolve_profile_access_context, is_membership_of}
use hustly_tasker.Workspace.Audit.{add_audit_log, write_workspace_audit}
use hustly_tasker.Workspace.Clean.{check_save_workspace}
use hustly_tasker.Workspace.Scope.{profile_by_id}

-- No two Workspaces of one Profile have the same period; legacy rows have neither.
abbrev pub OnePerPeriod : List Workspace → Type 0
OnePerPeriod workspaces =
    (v w : Workspace) (profile_id : ℕ) (period : Period)
    → Memᴰ v workspaces
    → Memᴰ w workspaces
    → v.profile_id ≡ some profile_id
    → w.profile_id ≡ some profile_id
    → v.period ≡ some period
    → w.period ≡ some period
    → v ≡ w

free_period :
    (db : Db) (v : Workspace) {profile_id : ℕ} {period : Period}
    → has_period db profile_id period ≡ false
    → Memᴰ v db.workspaces
    → v.profile_id ≡ some profile_id
    → v.period ≡ some period
    → false ≡ true
unfolding has_period
free_period db v {profile_id} {period} free m p q =
    let no =
      exists_none (λ (w : Workspace). w.profile_id == some profile_id && w.period == some period)
        db.workspaces free m in
    ground (arith, no, ==-refl (some profile_id), ==-refl (some period), p, q)

OnePerPeriod-append :
    (db : Db) (new : Workspace) (profile_id : ℕ) (period : Period)
    → new.profile_id ≡ some profile_id
    → new.period ≡ some period
    → has_period db profile_id period ≡ false
    → OnePerPeriod db.workspaces
    → OnePerPeriod (db.workspaces ++ new ∷ [])
OnePerPeriod-append db new profile_id period np nq free only v w a b mv mw vp wp vq wq =
    elim (mem-append_one db.workspaces new mv) [
      | inl ov ↦ elim (mem-append_one db.workspaces new mw) [
        | inl ow ↦ only v w a b ov ow vp wp vq wq
        | inr ew ↦ cc (
            free_period db v {profile_id = profile_id} {period = period} free ov
              (vp ∙ sym wp ∙ ap (λ x. x.profile_id) ew ∙ np)
              (vq ∙ sym wq ∙ ap (λ x. x.period) ew ∙ nq))
      ]
      | inr ev ↦ elim (mem-append_one db.workspaces new mw) [
        | inl ow ↦ cc (
            free_period db w {profile_id = profile_id} {period = period} free ow
              (wp ∙ sym vp ∙ ap (λ x. x.profile_id) ev ∙ np)
              (wq ∙ sym vq ∙ ap (λ x. x.period) ev ∙ nq))
        | inr ew ↦ ev ∙ sym ew
      ]
    ]

write_workspace_audit_lem :
    (request : Request) (id : ℕ) (workspace : Workspace) (action : String) (before after : Value)
    (db : Db) {last : Db}
    → write_workspace_audit request id workspace action before after db ≡ ok last
    → last.workspaces ≡ db.workspaces
unfolding write_workspace_audit add_audit_log
write_workspace_audit_lem request id workspace action before after db h =
    >>=-elim (insert _ db.audit_logs) _ h
      λ table _ h₁. ap (λ d. d.workspaces) (sym (ok-injective h₁))

save_new_workspace_lem :
    (rules : FieldRules) (profile_id : ℕ) (period : Period) (new : Workspace) (db : Db) {saved : Db}
    → save_new_workspace rules profile_id period new db ≡ ok saved
    → saved.workspaces ≡ db.workspaces ++ new ∷ []
unfolding save_new_workspace
save_new_workspace_lem rules profile_id period new db h =
    >>=-elim (check_save_workspace rules db new) _ h λ _ _ h₁.
      >>=-elim (integrity_as _ (insert new db.workspaces)) _ h₁ λ table put h₂.
        ap (λ d. d.workspaces) (sym (ok-injective h₂))
        ∙ (insert_lem new db.workspaces (integrity_as-eq-ok _ _ put)).0

-- If no two Workspaces share a Profile and a period, that is so after a `create_workspace` that
-- succeeds.
pub create_workspace-OnePerPeriod :
    (rules : FieldRules) (request : Request) (profile_id : Ref) (name : Option Text)
    (period : Option Period) (description : Option Text) (db : Db) {workspace : Workspace}
    {after : Db}
    → create_workspace rules request profile_id name period description db ≡ ok (workspace, after)
    → OnePerPeriod db.workspaces
    → OnePerPeriod after.workspaces
unfolding create_workspace new_workspace_row
create_workspace-OnePerPeriod rules request profile_id name period description db h only =
    >>=-elim (resolve_profile_access_context request.before (some request.actor) profile_id) _ h
      λ context _ h₁. or_raise-elim (profile_by_id db context.profile_id) _ _ h₁ λ profile _ h₂.
        guard-elim (profile.status == ProfileStatus.active) _ _ h₂ λ _ h₃.
          or_raise-elim (first (is_membership_of db context) db.profile_memberships) _ _ h₃
            λ actor _ h₄. guard-elim (actor.role == context.profile_role) _ _ h₄ λ _ h₅.
              guard-elim (is_profile_manager actor.role) _ _ h₅ λ _ h₆.
                or_raise-elim period _ _ h₆ λ month _ h₇.
                  guard-elim (not (has_period db profile.id month)) _ _ h₇ λ free h₈.
                    let new = new_workspace_row request profile.id name month description in
                    >>=-elim (save_new_workspace rules profile.id month new db) _ h₈
                      λ saved wrote h₉.
                        >>=-elim (write_workspace_audit request _ _ _ _ _ saved) _ h₉
                          λ last audited hₐ.
                            let appended =
                              save_new_workspace_lem rules profile.id month new db wrote in
                            let frame = write_workspace_audit_lem request _ _ _ _ _ saved audited in
                            subst OnePerPeriod
                              (sym appended
                                ∙ sym frame
                                ∙ ap (λ q. q.1.workspaces) (ok-injective hₐ))
                              (OnePerPeriod-append db new profile.id month refl refl (ground arith)
                                only)
