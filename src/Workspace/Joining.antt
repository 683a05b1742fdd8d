-- ===== src/Workspace/Joining.antt =====
-- Adding and reactivating a member: an ordinary Profile member leaves the active Admin seats as they
-- were.
use hustly_tasker.Store.{
  workspace_member_key, ProfileRole, WorkspaceRole, Db, Request, FieldRules, user_key, profile_key,
  profile_membership_key, workspace_key, task_key, task_assignment_key, task_comment_key,
  deliverable_key, review_key, audit_log_key, notification_key, Workspace, WorkspaceMember,
  profile_invitation_key, account_security_token_key,
}
use hustly_tasker.Access.{can_mutate_workspace_members}
use hustly_tasker.Prelude.{
  integrity_as, >>=-elim, or_raise-elim, guard-elim, integrity_as-eq-ok, ok-injective, first,
  first_sound, insert, Ref, Option-cases, UniqueBy, insert_lem, ℕ, ◌≡◌, refl, sym, ap, ◌∙◌, subst,
  inl, inr, true, not, Memᴰ, arith, ok,
}
use hustly_tasker.Workspace.Audit.{write_workspace_membership_audit}
use hustly_tasker.Workspace.Ceiling.{
  is_manager_seat, SameManagers, SameManagers-save, SameManagers-add, below_ceiling,
  write_workspace_membership_audit_lem,
}
use hustly_tasker.Workspace.Clean.{check_save_workspace_member}
use hustly_tasker.Workspace.Ordinary.{IsOrdinary, ordinary_scope}
use hustly_tasker.Workspace.Members.{
  is_within_ceiling, is_target_membership, is_seat_of, reactivate_member, create_member,
  add_workspace_member, AddedMember,
}
use hustly_tasker.Workspace.Scope.{lock_workspace_mutation_context}

reactivate_member-SameManagers :
    (rules : FieldRules) (request : Request) (workspace : Workspace) (m : WorkspaceMember)
    (role : WorkspaceRole) (db : Db) {added : AddedMember} {after : Db}
    → UniqueBy workspace_member_key.key db.workspace_members
    → Memᴰ m db.workspace_members
    → is_within_ceiling ProfileRole.member role ≡ true
    → reactivate_member rules request workspace m role db ≡ ok (added, after)
    → SameManagers db.workspace_members after.workspace_members
unfolding reactivate_member is_manager_seat
reactivate_member-SameManagers rules request workspace m role db unique stored allowed h =
    let f : WorkspaceMember → WorkspaceMember =
      λ row. record row { role = role; is_active = true } in
    guard-elim (not m.is_active) _ _ h λ inactive h₁.
      >>=-elim (check_save_workspace_member rules db (f m)) _ h₁ λ _ _ h₂.
        >>=-elim (write_workspace_membership_audit request _ _ _ _ _ _ _) _ h₂ λ last audited h₃.
          let frame = write_workspace_membership_audit_lem request _ _ _ _ _ _ _ audited in
          subst (SameManagers db.workspace_members)
            (sym frame ∙ ap (λ p. p.1.workspace_members) (ok-injective h₃))
            (SameManagers-save f m db.workspace_members unique stored (ground arith)
              (below_ceiling (f m) ProfileRole.member refl allowed))

create_member-SameManagers :
    (rules : FieldRules) (request : Request) (workspace : Workspace) (user_id : ℕ)
    (role : WorkspaceRole) (db : Db) {added : AddedMember} {after : Db}
    → is_within_ceiling ProfileRole.member role ≡ true
    → create_member rules request workspace user_id role db ≡ ok (added, after)
    → SameManagers db.workspace_members after.workspace_members
unfolding create_member
create_member-SameManagers rules request workspace user_id role db allowed h =
    let new : WorkspaceMember = record {
      id = request.new_id 0;
      workspace_id = workspace.id;
      user_id = user_id;
      role = role;
      is_active = true;
    } in
    >>=-elim (check_save_workspace_member rules db new) _ h λ _ _ h₁.
      >>=-elim (integrity_as _ (insert new db.workspace_members)) _ h₁ λ table put h₂.
        >>=-elim (write_workspace_membership_audit request _ _ _ _ _ _ _) _ h₂ λ last audited h₃.
          let frame = write_workspace_membership_audit_lem request _ _ _ _ _ _ _ audited in
          let grown = (insert_lem new db.workspace_members (integrity_as-eq-ok _ _ put)).0 in
          subst (SameManagers db.workspace_members)
            (sym grown ∙ sym frame ∙ ap (λ p. p.1.workspace_members) (ok-injective h₃))
            (SameManagers-add new db.workspace_members
              (below_ceiling new ProfileRole.member refl allowed))

-- If seat ids are unique and the actor's rows in the Profile of the call all have the Member role, an
-- `add_workspace_member` that succeeds leaves the active Admin seats as they were.
pub add_workspace_member-SameManagers :
    (rules : FieldRules) (request : Request) (profile_id workspace_id target_id : Ref)
    (role : WorkspaceRole) (db : Db) {added : AddedMember} {after : Db}
    → UniqueBy workspace_member_key.key db.workspace_members
    → IsOrdinary db request.actor profile_id
    → add_workspace_member rules request profile_id workspace_id target_id role db
      ≡ ok (added, after)
    → SameManagers db.workspace_members after.workspace_members
unfolding add_workspace_member
add_workspace_member-SameManagers rules request profile_id workspace_id target_id role db unique
      ordinary h =
    >>=-elim (lock_workspace_mutation_context request profile_id workspace_id db) _ h
      λ scope locked h₁. guard-elim (can_mutate_workspace_members db scope.context) _ _ h₁ λ _ h₂.
        guard-elim (is_within_ceiling scope.actor_membership.role role) _ _ h₂ λ within h₃.
          or_raise-elim
            (first (is_target_membership db target_id scope.context.profile_id)
              db.profile_memberships)
            _ _ h₃
            λ target _ h₄.
              let member_role = ordinary_scope request profile_id workspace_id db locked ordinary in
              let allowed = rw member_role at within in
              elim (Option-cases
                (first (is_seat_of scope.workspace.id target.user_id) db.workspace_members)) [
                  | inl new ↦
                      create_member-SameManagers rules request scope.workspace target.user_id role
                        db allowed (rw new at h₄)
                  | inr (m, found) ↦
                      reactivate_member-SameManagers rules request scope.workspace m role db unique
                        (first_sound (is_seat_of scope.workspace.id target.user_id)
                          db.workspace_members found).1
                        allowed (rw found at h₄)
                ]
