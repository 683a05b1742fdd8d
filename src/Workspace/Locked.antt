-- ===== src/Workspace/Locked.antt =====
-- What the locked scope guarantees, whatever the unlocked reads saw.
use hustly_tasker.Access.{
  profile_is_active, is_current_workspace_context, ProfileAccessContext, WorkspaceAccessContext,
  is_usable_membership, resolve_profile_access_context, is_membership_of, is_profile_manager,
  is_actor_row, in_actor_scope, is_in_manager_scope, is_member_workspace, is_in_member_scope,
  resolve_workspace_access_context,
}
use hustly_tasker.Prelude.{
  or_raise_bind, first, first_sound, Ref, ℕ, ◌≡◌, true, Option, some, Memᴰ, arith, ok, exists_intro,
  ==-refl, Option-cases, inl, inr, ◌==◌, nat_eq, string_eq, bool_eq, option_eq, ◌&&◌, refl, ◌⊎◌,
  >>=-elim, or_raise-elim, guard-elim, ==→≡, &&-true, ◌∙◌, ok-injective, subst,
}
use hustly_tasker.Store.{
  WorkspaceRole, Db, user_key, profile_key, profile_membership_key, workspace_key,
  workspace_member_key, task_key, task_assignment_key, task_comment_key, deliverable_key,
  review_key, audit_log_key, notification_key, ProfileMembership, Workspace, ProfileRole,
  profile_status_eq, profile_role_eq, workspace_status_eq, workspace_role_eq, task_status_eq,
  task_priority_eq, deliverable_status_eq, review_status_eq, event_type_eq, ProfileStatus, Request,
  period_eq, deadline_eq, Profile,
}
use hustly_tasker.Workspace.Scope.{
  locked_workspace_role, LockedScope, is_effective_assignment, profile_by_id, workspace_in_profile,
  lock_workspace_mutation_context,
}
use hustly_tasker.Access.Current.{resolve_keeps}

-- The scope of a call that passed the tenant boundary: the context is current in `db`, the Profile
-- is active, and both rows are rows of `db` that belong to the actor's tenant.
pub record IsLocked (db : Db) (actor : ℕ) (scope : LockedScope) : Type 0 where
  pub current : is_current_workspace_context db scope.context ≡ true
  pub active : profile_is_active db scope.context.profile_id ≡ true
  pub acts : scope.context.user_id ≡ actor
  pub stored : Memᴰ scope.workspace db.workspaces
  pub named : scope.workspace.id ≡ scope.context.workspace_id
  pub owned : scope.workspace.profile_id ≡ some scope.context.profile_id
  pub membership_stored : Memᴰ scope.actor_membership db.profile_memberships
  pub membership_role : scope.actor_membership.role ≡ scope.context.profile_role
  pub membership_fits :
      is_membership_of db scope.context.profile_context scope.actor_membership ≡ true

-- A context that is resolved for a user is the user's.
pub resolve_profile_lem :
    (db : Db) (user_id : ℕ) (profile_id : Ref) {context : ProfileAccessContext}
    → resolve_profile_access_context db (some user_id) profile_id ≡ ok context
    → context.user_id ≡ user_id
unfolding resolve_profile_access_context is_usable_membership
resolve_profile_lem db user_id profile_id h =
    let (row, found, h₁) =
      or_raise_bind (first (is_usable_membership db user_id profile_id) db.profile_memberships) _ _
        h in
    let fits = (first_sound (is_usable_membership db user_id profile_id) _ found).0 in ground arith

-- The locked membership ties the locked Workspace to the context.
locked-in_actor_scope :
    (db : Db) (context : ProfileAccessContext) (workspace : Workspace)
    (membership : ProfileMembership)
    → workspace.profile_id ≡ some context.profile_id
    → Memᴰ membership db.profile_memberships
    → is_membership_of db context membership ≡ true
    → in_actor_scope db context membership.role workspace ≡ true
unfolding in_actor_scope is_membership_of
locked-in_actor_scope db context workspace membership owned stored fits =
    exists_intro (is_actor_row db context membership.role workspace) db.profile_memberships stored
      (ground (arith, ==-refl membership.role))

module _ (db : Db) (context : WorkspaceAccessContext) (workspace : Workspace)
    (membership : ProfileMembership) (role : Option WorkspaceRole)
    (verified : context.verification ≡ true)
    (profile_verified : context.profile_context.verification ≡ true)
    (stored : Memᴰ workspace db.workspaces) (named : workspace.id ≡ context.workspace_id)
    (owned : workspace.profile_id ≡ some context.profile_id)
    (membership_stored : Memᴰ membership db.profile_memberships)
    (fits : is_membership_of db context.profile_context membership ≡ true)
    (same_role : membership.role ≡ context.profile_role)
    (locked : locked_workspace_role db workspace membership ≡ ok role)
    (same : role ≡ context.workspace_role) where
  locked_manager :
      is_profile_manager membership.role ≡ true → is_current_workspace_context db context ≡ true
  unfolding is_current_workspace_context locked_workspace_role
  locked_manager manager = ground (
    arith,
    exists_intro (is_in_manager_scope db context) db.workspaces stored,
    locked-in_actor_scope db context.profile_context workspace membership owned membership_stored
        fits,
  )

  locked_member :
      membership.role ≡ ProfileRole.member → is_current_workspace_context db context ≡ true
  unfolding is_current_workspace_context locked_workspace_role is_membership_of
      is_effective_assignment
  locked_member ordinary =
      elim (Option-cases
        (first (is_effective_assignment workspace.id membership.user_id) db.workspace_members)) [
          | inl missing ↦ absurd (ground arith)
          | inr (member, found) ↦
              let (chosen, m) =
                first_sound (is_effective_assignment workspace.id membership.user_id)
                  db.workspace_members found in
              ground (
                arith,
                ==-refl member.role,
                locked-in_actor_scope db context.profile_context workspace membership owned
                    membership_stored fits,
                exists_intro (is_member_workspace db context.profile_context member.workspace_id)
                    db.workspaces stored,
                exists_intro (is_in_member_scope db context) db.workspace_members m,
              )
        ]

profile_role_cases :
    (role : ProfileRole) → (is_profile_manager role ≡ true) ⊎ (role ≡ ProfileRole.member)
profile_role_cases ProfileRole.owner = inl refl
profile_role_cases ProfileRole.admin = inl refl
profile_role_cases ProfileRole.member = inr refl

-- The checks of the locked rows, put together.
IsLocked-rows :
    (db : Db) (actor : ℕ) (pc : ProfileAccessContext) (profile : Profile) (scope : LockedScope)
    (role : Option WorkspaceRole)
    → pc.user_id ≡ actor
    → (scope.context.user_id ≡ pc.user_id)
      × (scope.context.profile_id ≡ pc.profile_id)
      × (scope.context.membership_id ≡ pc.membership_id)
      × (scope.context.profile_context.verification ≡ true)
      × (scope.context.verification ≡ true)
    → profile_by_id db pc.profile_id ≡ some profile
    → (profile.status == ProfileStatus.active) ≡ true
    → workspace_in_profile db scope.context.workspace_id pc.profile_id ≡ some scope.workspace
    → first (is_membership_of db pc) db.profile_memberships ≡ some scope.actor_membership
    → locked_workspace_role db scope.workspace scope.actor_membership ≡ ok role
    → (scope.actor_membership.role == scope.context.profile_role
        && role == scope.context.workspace_role)
      ≡ true
    → IsLocked db actor scope
unfolding profile_by_id workspace_in_profile is_membership_of profile_is_active
IsLocked-rows db actor pc profile scope role acts keeps profile_found active found mfound locked
      same =
    let (by_id, pm) =
      first_sound (λ (p : Profile). p.id == pc.profile_id) db.profiles profile_found in
    let (fits, wm) =
      first_sound
        (λ (w : Workspace).
          w.id == scope.context.workspace_id && w.profile_id == some pc.profile_id)
        db.workspaces found in
    let (mfits, mm) = first_sound (is_membership_of db pc) db.profile_memberships mfound in
    let (same_role, same_workspace_role) =
      &&-true (scope.actor_membership.role == scope.context.profile_role)
        (role == scope.context.workspace_role) same in
    let owned : scope.workspace.profile_id ≡ some scope.context.profile_id = ground arith in
    let named : scope.workspace.id ≡ scope.context.workspace_id = ground arith in
    let here : is_membership_of db scope.context.profile_context scope.actor_membership ≡ true =
      ground arith in
    let held = ==→≡ scope.actor_membership.role scope.context.profile_role same_role in
    let bound = ==→≡ role scope.context.workspace_role same_workspace_role in
    let (_, _, _, pv, v) = keeps in
    record {
      current = elim (profile_role_cases scope.actor_membership.role) [
        | inl manager ↦
            locked_manager db scope.context scope.workspace scope.actor_membership role v pv wm
              named owned mm here held locked bound manager
        | inr ordinary ↦
            locked_member db scope.context scope.workspace scope.actor_membership role v pv wm named
              owned mm here held locked bound ordinary
      ];
      active =
          exists_intro
            (λ (p : Profile). p.id == scope.context.profile_id && p.status == ProfileStatus.active)
            db.profiles pm (ground arith);
      acts = keeps.0 ∙ acts;
      stored = wm;
      named = named;
      owned = owned;
      membership_stored = mm;
      membership_role = held;
      membership_fits = here;
    }

-- A call that passes the tenant boundary holds a context that is current in the locked database,
-- for the actor's own active membership, in an active Profile; the Workspace and the membership
-- are rows of that database and of the context's tenant. This holds whatever the reads before
-- the locks saw.
pub lock_workspace_mutation_context-IsLocked :
    (request : Request) (profile_id workspace_id : Ref) (db : Db) {scope : LockedScope}
    → lock_workspace_mutation_context request profile_id workspace_id db ≡ ok scope
    → IsLocked db request.actor scope
unfolding lock_workspace_mutation_context
lock_workspace_mutation_context-IsLocked request profile_id workspace_id db {scope} h =
    >>=-elim (resolve_profile_access_context request.before (some request.actor) profile_id) _ h
      λ pc entered h₁.
        >>=-elim (resolve_workspace_access_context request.before pc workspace_id) _ h₁
          λ context resolved h₂.
            or_raise-elim (profile_by_id db pc.profile_id) _ _ h₂ λ profile profile_found h₃.
              guard-elim (profile.status == ProfileStatus.active) _ _ h₃ λ active h₄.
                or_raise-elim (workspace_in_profile db context.workspace_id pc.profile_id) _ _ h₄
                  λ workspace found h₅.
                    or_raise-elim (first (is_membership_of db pc) db.profile_memberships) _ _ h₅
                      λ membership mfound h₆.
                        >>=-elim (locked_workspace_role db workspace membership) _ h₆
                          λ role locked h₇.
                            guard-elim
                              (membership.role == context.profile_role
                                && role == context.workspace_role)
                              _ _ h₇
                              λ same h₈.
                                let (keeps_user, keeps_profile, keeps_membership, pv, v, _) =
                                  resolve_keeps request.before pc workspace_id resolved in
                                subst (IsLocked db request.actor) (ok-injective h₈) (
                                  IsLocked-rows db request.actor pc profile
                                    (record {
                                      context = context;
                                      workspace = workspace;
                                      actor_membership = membership;
                                    })
                                    role
                                    (resolve_profile_lem request.before request.actor profile_id
                                      entered)
                                    (keeps_user, keeps_profile, keeps_membership, pv, v)
                                    profile_found active found mfound locked same)
