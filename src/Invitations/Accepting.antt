-- ===== src/Invitations/Accepting.antt =====
-- What an acceptance writes.
use hustly_tasker.Invitations.Steps.{acceptance, settled}
use hustly_tasker.Prelude.{
  ok, >>=-elim, guard-elim, ok-injective, exists, rows, save, insert, ◌==◌, nat_eq, string_eq,
  bool_eq, option_eq, list_eq, ℕ, ◌+◌, String, ◌≡◌, sym, ap, ◌∙◌, false, ◌&&◌, not, List, [], ◌∷◌,
  arith,
}
use hustly_tasker.Invitations.Effects.{write_invitation_audit-SameButLogs}
use hustly_tasker.Invitations.Records.{
  role_of, write_invitation_audit, write_membership_audit, write_workspace_rejoin_revoke_audit,
}
use hustly_tasker.Store.{
  profile_status_eq, profile_role_eq, workspace_status_eq, workspace_role_eq, task_status_eq,
  task_priority_eq, deliverable_status_eq, review_status_eq, event_type_eq, ProfileRole,
  invitation_role_eq, invitation_status_eq, delivery_status_eq, token_purpose_eq, token_status_eq,
  profile_invitation_key, account_security_token_key, ProfileInvitation, Db, SameButLogs, Value,
  Request, FieldRules, user_key, profile_key, profile_membership_key, workspace_key,
  workspace_member_key, task_key, task_assignment_key, task_comment_key, deliverable_key,
  review_key, audit_log_key, notification_key, period_eq, deadline_eq, Profile, ProfileMembership,
  WorkspaceMember,
}
use hustly_tasker.Workspace.{add_audit_log, full_clean_profile_membership}
use hustly_tasker.Invitations.Answering.{
  revoke_seats, revoke_stale_workspace_access, join_profile, answered_by, set_accepted, is_row_of,
  accept_usable, Joining,
}
use hustly_tasker.Invitations.Tokens.{validate_original_inviter_locked}
use hustly_tasker.Workspace.Logged.{add_audit_log-SameButLogs}

revoke_seats-invitations :
    (actor profile_id : ℕ) (new_id : ℕ → ℕ) (members : List WorkspaceMember) (db : Db) {after : Db}
    → revoke_seats actor profile_id new_id members db ≡ ok after
    → (after.profile_invitations ≡ db.profile_invitations)
      × (after.profile_memberships ≡ db.profile_memberships)
unfolding revoke_seats write_workspace_rejoin_revoke_audit
revoke_seats-invitations actor profile_id new_id [] db h =
    let e = sym (ok-injective h) in
    (ap (λ d. d.profile_invitations) e, ap (λ d. d.profile_memberships) e)
revoke_seats-invitations actor profile_id new_id (member ∷ members) db h =
    >>=-elim (add_audit_log _ _) _ h λ checked audit h₁.
      let frame = add_audit_log-SameButLogs _ _ audit in
      let (invitations, memberships) =
        revoke_seats-invitations actor profile_id (λ k. new_id (k + 1)) members checked h₁ in
      (invitations ∙ frame.profile_invitations, memberships ∙ frame.profile_memberships)

join_profile-invitations :
    (rules : FieldRules) (request : Request) (invitation : ProfileInvitation) (profile_id : ℕ)
    (rows_of_actor : List ProfileMembership) (db : Db) {joining : Joining} {after : Db}
    → join_profile rules request invitation profile_id rows_of_actor db ≡ ok (joining, after)
    → after.profile_invitations ≡ db.profile_invitations
unfolding join_profile
join_profile-invitations rules request invitation profile_id [] db h =
    >>=-elim (full_clean_profile_membership rules db _) _ h λ _ _ h₁.
      >>=-elim (insert _ db.profile_memberships) _ h₁
        λ table _ h₂. sym (ap (λ p. p.1.profile_invitations) (ok-injective h₂))
join_profile-invitations rules request invitation profile_id (membership ∷ []) db h =
    guard-elim
      (not (membership.role == ProfileRole.owner)
        && membership.role == role_of invitation.requested_role)
      _ _ h
      λ _ h₁.
        >>=-elim (full_clean_profile_membership rules db _) _ h₁
          λ _ _ h₂. sym (ap (λ p. p.1.profile_invitations) (ok-injective h₂))
join_profile-invitations rules request invitation profile_id (membership ∷ other ∷ more) db h = cc

revoke_stale-invitations :
    (actor profile_id : ℕ) (new_id : ℕ → ℕ) (db : Db) {after : Db}
    → revoke_stale_workspace_access actor profile_id new_id db ≡ ok after
    → (after.profile_invitations ≡ db.profile_invitations)
      × (after.profile_memberships ≡ db.profile_memberships)
unfolding revoke_stale_workspace_access
revoke_stale-invitations actor profile_id new_id db h =
    revoke_seats-invitations actor profile_id new_id _ db h

write_membership_audit-SameButLogs :
    (id actor : ℕ) (membership : ProfileMembership) (action : String) (was is : Value) (db : Db)
    {after : Db}
    → write_membership_audit id actor membership action was is db ≡ ok after
    → SameButLogs db after
unfolding write_membership_audit
write_membership_audit-SameButLogs id actor membership action was is db h =
    add_audit_log-SameButLogs _ db h

-- What an acceptance does to the invitations and the memberships.
pub record IsAccepted (rules : FieldRules) (request : Request) (profile : Profile)
    (invitation : ProfileInvitation) (db : Db) (membership : ProfileMembership) (after : Db)
    : Type 0 where
  pub joining : Joining
  pub joined : Db
  pub free :
      exists
        (λ (row : ProfileMembership). row.is_active)
        (rows (is_row_of profile.id request.actor) db.profile_memberships)
      ≡ false
  pub join :
      join_profile rules request invitation profile.id
        (rows (is_row_of profile.id request.actor) db.profile_memberships)
        db
      ≡ ok (joining, joined)
  pub result : joining.membership ≡ membership
  pub memberships : after.profile_memberships ≡ joined.profile_memberships
  pub invitations :
      after.profile_invitations
      ≡ save invitation.id
          (settled (acceptance request.now request.actor (answered_by request.actor invitation)))
          db.profile_invitations

pub accept_usable-IsAccepted :
    (rules : FieldRules) (request : Request) (profile : Profile) (invitation : ProfileInvitation)
    (db : Db) {membership : ProfileMembership} {after : Db}
    → accept_usable rules request profile invitation db ≡ ok (membership, after)
    → IsAccepted rules request profile invitation db membership after
unfolding accept_usable settled
accept_usable-IsAccepted rules request profile invitation db h =
    >>=-elim (validate_original_inviter_locked invitation db) _ h λ _ _ h₁.
      guard-elim
        (not (
          exists (λ (row : ProfileMembership). row.is_active)
            (rows (is_row_of profile.id request.actor) db.profile_memberships)))
        _ _ h₁
        λ free h₂.
          >>=-elim
            (join_profile rules request invitation profile.id
              (rows (is_row_of profile.id request.actor) db.profile_memberships) db)
            _ h₂
            λ (joining, joined) join h₃.
              >>=-elim (revoke_stale_workspace_access request.actor profile.id _ joined) _ h₃
                λ revoked revoke h₄.
                  >>=-elim (write_membership_audit _ _ _ _ _ _ revoked) _ h₄ λ audited audit h₅.
                    >>=-elim (write_invitation_audit _ _ _ _ _ _ _) _ h₅ λ last write h₆.
                      let seats =
                        revoke_stale-invitations request.actor profile.id _ joined revoke in
                      let quiet = write_membership_audit-SameButLogs _ _ _ _ _ _ revoked audit in
                      let frame = write_invitation_audit-SameButLogs _ _ _ _ _ _ _ write in
                      let e = ok-injective h₆ in
                      record {
                        joining = joining;
                        joined = joined;
                        free = ground arith;
                        join = join;
                        result = ap (λ p. p.0) e;
                        memberships =
                            sym (ap (λ p. p.1.profile_memberships) e)
                            ∙ frame.profile_memberships
                            ∙ quiet.profile_memberships
                            ∙ seats.1;
                        invitations =
                            sym (ap (λ p. p.1.profile_invitations) e)
                            ∙ frame.profile_invitations
                            ∙ ap
                                (save invitation.id (
                                  set_accepted request.now request.actor
                                    (answered_by request.actor invitation)))
                                (quiet.profile_invitations
                                  ∙ seats.0
                                  ∙ join_profile-invitations rules request invitation profile.id
                                      (rows (is_row_of profile.id request.actor)
                                        db.profile_memberships)
                                      db join);
                      }
