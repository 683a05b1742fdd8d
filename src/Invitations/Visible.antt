-- ===== src/Invitations/Visible.antt =====
-- backend/apps/workspace/access.py: the invitations that a manager sees.
use hustly_tasker.Prelude.{
  ok, guard, ◌>>=◌, ◌>>◌, >>=-elim, guard-elim, ok-injective, Result, tenant_access_not_found,
  exists, rows, rows-mem, ◌==◌, nat_eq, string_eq, bool_eq, option_eq, list_eq, ◌≡◌, sym, subst,
  Bool, true, ◌&&◌, ◌||◌, not, List, Memᴰ, or_raise, or_raise-elim, first, first_sound, ==→≡, ℕ,
  refl, ap, ◌∙◌, Option, some, arith,
}
use hustly_tasker.Access.{
  is_profile_manager, ProfileAccessContext, is_membership_of, refresh_profile_access_context,
  build_profile_access_context, is_verified_profile_context, is_usable,
  can_manage_profile_invitations,
}
use hustly_tasker.Invitations.Managers.{can_issue_role}
use hustly_tasker.Store.{
  profile_status_eq, profile_role_eq, workspace_status_eq, workspace_role_eq, task_status_eq,
  task_priority_eq, deliverable_status_eq, review_status_eq, event_type_eq, ProfileRole,
  invitation_role_eq, invitation_status_eq, delivery_status_eq, token_purpose_eq, token_status_eq,
  InvitationRole, ProfileInvitation, Db, period_eq, deadline_eq, ProfileMembership,
  profile_invitation_key, account_security_token_key, user_key, profile_key, profile_membership_key,
  workspace_key, workspace_member_key, task_key, task_assignment_key, task_comment_key,
  deliverable_key, review_key, audit_log_key, notification_key,
}

-- The predicates `profile__memberships__...` on one membership.
unfoldable pub is_context_row : Db → ProfileAccessContext → ProfileMembership → Bool
is_context_row db context membership =
    is_membership_of db context membership && membership.role == context.profile_role

unfoldable pub profile_invitations_visible_to_managers :
    Db → ProfileAccessContext → Result (List ProfileInvitation)
unfolding is_context_row can_manage_profile_invitations
profile_invitations_visible_to_managers db context = do
  current ← refresh_profile_access_context db context
  guard (can_manage_profile_invitations db current) tenant_access_not_found
  ok (
      rows
        (λ (invitation : ProfileInvitation).
          invitation.profile_id == current.profile_id
          && exists (is_context_row db current) db.profile_memberships
          && (not (current.profile_role == ProfileRole.admin)
              || invitation.requested_role == InvitationRole.member))
        db.profile_invitations)

-- A refreshed context refreshes to itself.
refresh-refresh :
    (db : Db) (context current : ProfileAccessContext)
    → refresh_profile_access_context db context ≡ ok current
    → refresh_profile_access_context db current ≡ ok current
unfolding refresh_profile_access_context is_membership_of
refresh-refresh db context current h =
    guard-elim (is_verified_profile_context context) _ _ h λ _ h₁.
      or_raise-elim (first (is_membership_of db context) db.profile_memberships) _ _ h₁
        λ m found h₂.
          let (fits, _) = first_sound (is_membership_of db context) db.profile_memberships found in
          let look : ℕ → ℕ → ℕ → Option ProfileMembership = λ a b c.
            first
              (λ (r : ProfileMembership).
                r.id == a && r.profile_id == b && r.user_id == c && is_usable db r)
              db.profile_memberships in
          let e₁ = ==→≡ m.id context.membership_id (ground arith) in
          let e₂ = ==→≡ m.profile_id context.profile_id (ground arith) in
          let e₃ = ==→≡ m.user_id context.user_id (ground arith) in
          let again : look m.id m.profile_id m.user_id ≡ some m =
            ap (λ a. look a m.profile_id m.user_id) e₁
            ∙ ap (λ b. look context.membership_id b m.user_id) e₂
            ∙ ap (look context.membership_id context.profile_id) e₃
            ∙ found in
          subst (λ c. refresh_profile_access_context db c ≡ ok c) (ok-injective h₂)
            (ap
              (λ o. or_raise o tenant_access_not_found >>= λ r. ok (build_profile_access_context r))
              again)

-- What a manager may see, the manager may issue.
below_ceiling_role :
    (role : ProfileRole) (requested : InvitationRole)
    → is_profile_manager role ≡ true
    → (not (role == ProfileRole.admin) || requested == InvitationRole.member) ≡ true
    → can_issue_role role requested ≡ true
unfolding can_issue_role
below_ceiling_role ProfileRole.owner InvitationRole.admin manager seen = refl
below_ceiling_role ProfileRole.owner InvitationRole.member manager seen = refl
below_ceiling_role ProfileRole.admin InvitationRole.admin manager seen = cc
below_ceiling_role ProfileRole.admin InvitationRole.member manager seen = refl
below_ceiling_role ProfileRole.member requested manager seen = cc

-- Every invitation that a manager sees is of the Profile of the context, and its role is one that the
-- manager may issue.
pub profile_invitations_visible_to_managers-IsBelow :
    (db : Db) (context : ProfileAccessContext) (visible : List ProfileInvitation)
    (invitation : ProfileInvitation)
    → profile_invitations_visible_to_managers db context ≡ ok visible
    → Memᴰ invitation visible
    → (current : ProfileAccessContext) × (refresh_profile_access_context db context ≡ ok current)
      × Memᴰ invitation db.profile_invitations
      × (invitation.profile_id ≡ current.profile_id)
      × (can_issue_role current.profile_role invitation.requested_role ≡ true)
unfolding profile_invitations_visible_to_managers can_manage_profile_invitations
profile_invitations_visible_to_managers-IsBelow db context visible invitation h m =
    >>=-elim (refresh_profile_access_context db context) _ h λ current fresh h₁.
      guard-elim (can_manage_profile_invitations db current) _ _ h₁ λ allowed h₂.
        let (stored, passed) =
          rows-mem _ db.profile_invitations (subst (Memᴰ invitation) (sym (ok-injective h₂)) m) in
        (
          current,
          fresh,
          stored,
          ==→≡ invitation.profile_id current.profile_id (ground arith),
          below_ceiling_role current.profile_role invitation.requested_role
              (rw (refresh-refresh db context current fresh, can_manage_profile_invitations) at
                allowed)
              (ground arith),
        )
