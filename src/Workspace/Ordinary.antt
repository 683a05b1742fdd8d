-- ===== src/Workspace/Ordinary.antt =====
-- The role of an actor who is an ordinary member of the Profile of the call.
use hustly_tasker.Store.{
  workspace_member_key, profile_status_eq, profile_role_eq, workspace_status_eq, workspace_role_eq,
  task_status_eq, task_priority_eq, deliverable_status_eq, review_status_eq, event_type_eq,
  ProfileRole, Db, user_key, profile_key, profile_membership_key, workspace_key, task_key,
  task_assignment_key, task_comment_key, deliverable_key, review_key, audit_log_key,
  notification_key, period_eq, deadline_eq, ProfileMembership, Request, ProfileStatus,
  invitation_role_eq, invitation_status_eq, delivery_status_eq, token_purpose_eq, token_status_eq,
  profile_invitation_key, account_security_token_key,
}
use hustly_tasker.Access.{
  is_membership_of, ProfileAccessContext, is_usable_membership, resolve_profile_access_context,
  resolve_workspace_access_context,
}
use hustly_tasker.Prelude.{
  ◌==◌, nat_eq, string_eq, bool_eq, option_eq, list_eq, ==→≡, ℕ, ◌≡◌, ap, true, ◌&&◌, Memᴰ, arith,
  >>=-elim, or_raise-elim, guard-elim, ok-injective, first, first_sound, Ref, sym, ◌∙◌, ok,
  or_raise_bind, refers, some,
}
use hustly_tasker.Workspace.Locked.{lock_workspace_mutation_context-IsLocked}
use hustly_tasker.Access.Current.{resolve_keeps}
use hustly_tasker.Workspace.Scope.{
  LockedScope, lock_workspace_mutation_context, profile_by_id, workspace_in_profile,
  locked_workspace_role,
}

-- The actor's rows in the Profile that `profile_id` names all have the Member role; those in other
-- Profiles may have any.
abbrev pub IsOrdinary : Db → ℕ → Ref → Type 0
IsOrdinary db actor profile_id =
    (m : ProfileMembership)
    → Memᴰ m db.profile_memberships
    → m.user_id ≡ actor
    → refers profile_id m.profile_id ≡ true
    → m.role ≡ ProfileRole.member

resolve_profile-refers :
    (db : Db) (user_id : ℕ) (profile_id : Ref) {context : ProfileAccessContext}
    → resolve_profile_access_context db (some user_id) profile_id ≡ ok context
    → refers profile_id context.profile_id ≡ true
unfolding resolve_profile_access_context is_usable_membership
resolve_profile-refers db user_id profile_id h =
    let (row, found, h₁) =
      or_raise_bind (first (is_usable_membership db user_id profile_id) db.profile_memberships) _ _
        h in
    let fits = (first_sound (is_usable_membership db user_id profile_id) _ found).0 in ground arith

-- The context of a locked scope is one of the Profile that the call names.
lock_workspace_mutation_context-refers :
    (request : Request) (profile_id workspace_id : Ref) (db : Db) {scope : LockedScope}
    → lock_workspace_mutation_context request profile_id workspace_id db ≡ ok scope
    → refers profile_id scope.context.profile_id ≡ true
unfolding lock_workspace_mutation_context
lock_workspace_mutation_context-refers request profile_id workspace_id db h =
    >>=-elim (resolve_profile_access_context request.before (some request.actor) profile_id) _ h
      λ pc entered h₁.
        >>=-elim (resolve_workspace_access_context request.before pc workspace_id) _ h₁
          λ context resolved h₂.
            or_raise-elim (profile_by_id db pc.profile_id) _ _ h₂ λ profile _ h₃.
              guard-elim (profile.status == ProfileStatus.active) _ _ h₃ λ _ h₄.
                or_raise-elim (workspace_in_profile db context.workspace_id pc.profile_id) _ _ h₄
                  λ workspace _ h₅.
                    or_raise-elim (first (is_membership_of db pc) db.profile_memberships) _ _ h₅
                      λ membership _ h₆.
                        >>=-elim (locked_workspace_role db workspace membership) _ h₆ λ role _ h₇.
                          guard-elim
                            (membership.role == context.profile_role
                              && role == context.workspace_role)
                            _ _ h₇
                            λ _ h₈.
                              let (_, same, _, _, _, _) =
                                resolve_keeps request.before pc workspace_id resolved in
                              ap (λ (l : LockedScope). refers profile_id l.context.profile_id)
                                (sym (ok-injective h₈))
                              ∙ ap (refers profile_id) same
                              ∙ resolve_profile-refers request.before request.actor profile_id
                                  entered

pub ordinary_scope :
    (request : Request) (profile_id workspace_id : Ref) (db : Db) {scope : LockedScope}
    → lock_workspace_mutation_context request profile_id workspace_id db ≡ ok scope
    → IsOrdinary db request.actor profile_id
    → scope.actor_membership.role ≡ ProfileRole.member
unfolding is_membership_of
ordinary_scope request profile_id workspace_id db {scope} h ordinary =
    let locked = lock_workspace_mutation_context-IsLocked request profile_id workspace_id db h in
    let fits = locked.membership_fits in
    let who = locked.acts in
    let here = ==→≡ scope.actor_membership.profile_id scope.context.profile_id (ground arith) in
    ordinary scope.actor_membership locked.membership_stored (ground arith) (
      ap (refers profile_id) here
      ∙ lock_workspace_mutation_context-refers request profile_id workspace_id db h)
