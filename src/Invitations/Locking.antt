-- ===== src/Invitations/Locking.antt =====
-- What a token is that `_lock_usable_token` returns.
use hustly_tasker.Prelude.{
  ok, >>=-elim, or_raise-elim, guard-elim, ok-injective, first, first_sound, ◌==◌, nat_eq,
  string_eq, bool_eq, option_eq, list_eq, ==→≡, ℕ, ◌≡◌, subst, ◌⊎◌, true, false, ◌&&◌, Memᴰ, arith,
  guard-eq-ok, leb, inl, inr, some,
}
use hustly_tasker.Invitations.Effects.{materialize_expiration_lem, not_due}
use hustly_tasker.Invitations.Issuing.{materialize_expiration}
use hustly_tasker.Invitations.Steps.{Steps, is_addressed_to}
use hustly_tasker.Store.{
  profile_status_eq, profile_role_eq, workspace_status_eq, workspace_role_eq, task_status_eq,
  task_priority_eq, deliverable_status_eq, review_status_eq, event_type_eq, ProfileStatus,
  invitation_role_eq, invitation_status_eq, delivery_status_eq, token_purpose_eq, token_status_eq,
  profile_invitation_key, account_security_token_key, InvitationStatus, DeliveryStatus,
  ProfileInvitation, Db, Platform, Request, user_key, profile_key, profile_membership_key,
  workspace_key, workspace_member_key, task_key, task_assignment_key, task_comment_key,
  deliverable_key, review_key, audit_log_key, notification_key, period_eq, deadline_eq, User,
}
use hustly_tasker.Workspace.{profile_by_id}
use hustly_tasker.Invitations.Tokens.{
  validate_recipient_locked, is_invitation_of, lock_usable_token, Candidate, LockedToken,
  is_account_of,
}
use hustly_tasker.Accounts.{normalize_account_email}
use hustly_tasker.Invitations.Managers.{resolve_recipient_account}

-- What a token that was locked is: a stored invitation, pending, sent, with the digest, and not for
-- another account; if it is usable, it has not expired.
pub record IsLocked (actor now : ℕ) (candidate : Candidate) (locked : LockedToken) (db after : Db)
    : Type 0 where
  pub stored : Memᴰ locked.invitation db.profile_invitations
  pub pending : locked.invitation.status ≡ InvitationStatus.pending
  pub sent : locked.invitation.delivery_status ≡ DeliveryStatus.sent
  pub tenant : locked.invitation.profile_id ≡ locked.profile.id
  pub digest : locked.invitation.token_digest ≡ candidate.digest
  pub steps : Steps db.profile_invitations after.profile_invitations
  pub addressed : is_addressed_to actor locked.invitation ≡ true
  pub fate :
      (locked.has_expired ≡ true)
      ⊎ (locked.has_expired ≡ false) × (after ≡ db) × (leb locked.invitation.expires_at now ≡ false)

of_tenant :
    (candidate : Candidate) (profile_id : ℕ) (row : ProfileInvitation)
    → is_invitation_of candidate profile_id row ≡ true
    → row.profile_id ≡ profile_id
unfolding is_invitation_of
of_tenant candidate profile_id row fits = ==→≡ row.profile_id profile_id (ground arith)

of_candidate :
    (candidate : Candidate) (profile_id : ℕ) (row : ProfileInvitation)
    → is_invitation_of candidate profile_id row ≡ true
    → list_eq.equals row.token_digest candidate.digest ≡ true
unfolding is_invitation_of
of_candidate candidate profile_id row fits = ground arith

validate_recipient_locked-addressed :
    (platform : Platform) (actor : ℕ) (invitation : ProfileInvitation) (db : Db)
    → validate_recipient_locked platform actor invitation db ≡ ok tt
    → is_addressed_to actor invitation ≡ true
unfolding validate_recipient_locked is_addressed_to
validate_recipient_locked-addressed platform actor invitation db h =
    or_raise-elim (first (λ (user : User). user.id == actor && user.is_active) db.users) _ _ h
      λ user _ h₁.
        let email = normalize_account_email platform (some user.email) in
        guard-elim (list_eq.equals email invitation.recipient_email_normalized) _ _ h₁ λ _ h₂.
          >>=-elim (resolve_recipient_account platform db email) _ h₂ λ recipient _ h₃.
            guard-elim (is_account_of actor recipient) _ _ h₃ λ _ h₄. guard-eq-ok _ _ h₄

pub lock_usable_token-IsLocked :
    (platform : Platform) (request : Request) (candidate : Candidate) (db : Db)
    {locked : LockedToken} {after : Db}
    → lock_usable_token platform request candidate db ≡ ok (locked, after)
    → IsLocked request.actor request.now candidate locked db after
unfolding lock_usable_token
lock_usable_token-IsLocked platform request candidate db {locked} {after} h =
    or_raise-elim (profile_by_id db candidate.profile_id) _ _ h λ profile _ h₁.
      or_raise-elim (first (is_invitation_of candidate profile.id) db.profile_invitations) _ _ h₁
        λ row found h₂.
          let (fits, stored) =
            first_sound (is_invitation_of candidate profile.id) db.profile_invitations found in
          guard-elim
            (profile.status == ProfileStatus.active
              && row.status == InvitationStatus.pending
              && row.delivery_status == DeliveryStatus.sent)
            _ _ h₂
            λ passed h₃.
              >>=-elim (validate_recipient_locked platform request.actor row db) _ h₃
                λ _ for_actor h₄.
                  >>=-elim (materialize_expiration request _ row db) _ h₄
                    λ (expired, checked) done h₅.
                      let (steps, fate) = materialize_expiration_lem request _ row db stored done in
                      subst (λ p. IsLocked request.actor request.now candidate p.0 db p.1)
                        (ok-injective h₅)
                        record {
                          stored = stored;
                          pending = ==→≡ row.status InvitationStatus.pending (ground arith);
                          sent = ==→≡ row.delivery_status DeliveryStatus.sent (ground arith);
                          tenant = of_tenant candidate profile.id row fits;
                          digest =
                              (list_eq.equals_iff row.token_digest candidate.digest).0
                                (of_candidate candidate profile.id row fits);
                          steps = steps;
                          addressed =
                              validate_recipient_locked-addressed platform request.actor row db
                                for_actor;
                          fate = elim fate [
                            | inl due ↦ inl due
                            | inr (usable, same, fresh) ↦ inr (
                              usable,
                              same,
                              not_due row request.now fresh
                                  (==→≡ row.status InvitationStatus.pending (ground arith)),
                            )
                          ];
                        }
