-- ===== src/Invitations/Fresh.antt =====
-- The invitation that a call issues, and who issues it.
use hustly_tasker.Prelude.{
  ok, raising, raising-eq-ok, >>=-elim, guard-elim, ok-injective, invitation_conflict, Text, insert,
  ◌==◌, nat_eq, string_eq, bool_eq, option_eq, list_eq, insert_lem, ℕ, ◌≡◌, refl, sym, ◌∙◌, subst,
  Option, some, List, arith, Ref, or_raise-elim, first, first_sound, ==→≡, mem-append_last, Memᴰ,
}
use hustly_tasker.Invitations.Effects.{write_invitation_audit-SameButLogs}
use hustly_tasker.Invitations.Issuing.{issue_invitation_locked}
use hustly_tasker.Invitations.Managers.{
  ManagerScope, lock_manager_context, can_issue, is_manager_row,
}
use hustly_tasker.Invitations.Records.{full_clean_invitation, write_invitation_audit}
use hustly_tasker.Store.{
  profile_status_eq, profile_role_eq, workspace_status_eq, workspace_role_eq, task_status_eq,
  task_priority_eq, deliverable_status_eq, review_status_eq, event_type_eq, invitation_role_eq,
  invitation_status_eq, delivery_status_eq, token_purpose_eq, token_status_eq,
  profile_invitation_key, account_security_token_key, InvitationRole, ProfileInvitation, Db,
  Platform, Request, FieldRules, user_key, profile_key, profile_membership_key, workspace_key,
  workspace_member_key, task_key, task_assignment_key, task_comment_key, deliverable_key,
  review_key, audit_log_key, notification_key, period_eq, deadline_eq, User, ProfileStatus,
}
use hustly_tasker.Access.{resolve_profile_access_context, is_membership_of}
use hustly_tasker.Workspace.Locked.{resolve_profile_lem}
use hustly_tasker.Workspace.{profile_by_id}

-- The manager of a locked scope is a stored membership of the actor.
pub lock_manager_context-actor :
    (request : Request) (profile_id : Ref) (role : Option InvitationRole) (db : Db)
    {scope : ManagerScope}
    → lock_manager_context request profile_id role db ≡ ok scope
    → Memᴰ scope.membership db.profile_memberships × (scope.membership.user_id ≡ request.actor)
unfolding lock_manager_context is_manager_row is_membership_of
lock_manager_context-actor request profile_id role db h =
    >>=-elim (resolve_profile_access_context request.before (some request.actor) profile_id) _ h
      λ context entered h₁.
        or_raise-elim (profile_by_id db context.profile_id) _ _ h₁ λ profile _ h₂.
          guard-elim (profile.status == ProfileStatus.active) _ _ h₂ λ _ h₃.
            or_raise-elim (first (is_manager_row db context) db.profile_memberships) _ _ h₃
              λ membership found h₄. guard-elim (can_issue membership.role role) _ _ h₄ λ _ h₅.
                let (fits, stored) =
                  first_sound (is_manager_row db context) db.profile_memberships found in
                let user : membership.user_id ≡ context.user_id =
                  ==→≡ membership.user_id context.user_id (ground arith) in
                subst
                  (λ (s : ManagerScope).
                    Memᴰ s.membership db.profile_memberships
                    × (s.membership.user_id ≡ request.actor))
                  (ok-injective h₅)
                  (
                    stored,
                    user ∙ resolve_profile_lem request.before request.actor profile_id entered,
                  )

-- A stored invitation of the moment `now`, to the address, by the membership.
pub record IsNew (now membership_id : ℕ) (email : Text) (invitation : ProfileInvitation)
    (table : List ProfileInvitation) : Type 0 where
  pub stored : Memᴰ invitation table
  pub created_at : invitation.created_at ≡ now
  pub email_is : invitation.recipient_email_normalized ≡ email
  pub inviter : invitation.invited_by_membership_id ≡ membership_id

pub issue_invitation_locked-IsNew :
    (platform : Platform) (rules : FieldRules) (request : Request) (raw_token : Text)
    (new_id : ℕ → ℕ) (scope : ManagerScope) (email : Text) (role : InvitationRole)
    (recipient : Option User) (replaces : Option ProfileInvitation) (db : Db)
    {invitation : ProfileInvitation} {after : Db}
    → issue_invitation_locked platform rules request raw_token new_id scope email role recipient
        replaces db
      ≡ ok (invitation, after)
    → IsNew request.now scope.membership.id email invitation after.profile_invitations
unfolding issue_invitation_locked
issue_invitation_locked-IsNew platform rules request raw_token new_id scope email role recipient
      replaces db h =
    >>=-elim (raising invitation_conflict (full_clean_invitation platform rules db _)) _ h λ _ _ h₁.
      >>=-elim (raising invitation_conflict (insert _ db.profile_invitations)) _ h₁ λ table put h₂.
        >>=-elim (write_invitation_audit _ _ _ _ _ _ (record db { profile_invitations = table })) _
          h₂
          λ last audit h₃.
            let frame = write_invitation_audit-SameButLogs _ _ _ _ _ _ _ audit in
            let (grown, _) = insert_lem _ db.profile_invitations (raising-eq-ok _ _ put) in
            subst (λ p. IsNew request.now scope.membership.id email p.0 p.1.profile_invitations)
              (ok-injective h₃)
              record {
                stored =
                    subst (Memᴰ _) (sym (frame.profile_invitations ∙ grown))
                      (mem-append_last db.profile_invitations _);
                created_at = refl;
                email_is = refl;
                inviter = refl;
              }
