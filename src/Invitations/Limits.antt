-- ===== src/Invitations/Limits.antt =====
-- The limits on how many invitations are issued within a day.
use hustly_tasker.Prelude.{
  ok, raising, raising-eq-ok, >>=-elim, guard-elim, ok-injective, invitation_conflict, Text, length,
  rows, update_where, insert, ◌==◌, nat_eq, string_eq, bool_eq, option_eq, list_eq, Bool-cases,
  insert_lem, ℕ, suc, ◌≤◌, ◌≡◌, refl, sym, ap, ◌∙◌, subst, inl, inr, Bool, Option, none, some, List,
  [], ◌∷◌, ◌++◌, arith, Ref, leb, false, not, or_raise-elim, guard-eq-ok, exists, first, ◌&&◌,
  exists_intro, true, Memᴰ,
}
use hustly_tasker.Invitations.Effects.{write_invitation_audit-SameButLogs}
use hustly_tasker.Invitations.Issuing.{
  is_due, set_expired, expire, materialize_expiration, issue_invitation_locked, clear_pending,
  is_joined, create_profile_invitation,
}
use hustly_tasker.Invitations.Managers.{
  ManagerScope, max_invitations_per_recipient, max_invitations_per_inviter,
  resolve_recipient_account, lock_manager_context, is_issued_by, inviter_count, recipient_count,
  enforce_issuance_limits, is_recent,
}
use hustly_tasker.Invitations.Records.{full_clean_invitation, write_invitation_audit}
use hustly_tasker.Store.{
  profile_status_eq, profile_role_eq, workspace_status_eq, workspace_role_eq, task_status_eq,
  task_priority_eq, deliverable_status_eq, review_status_eq, event_type_eq, invitation_role_eq,
  invitation_status_eq, delivery_status_eq, token_purpose_eq, token_status_eq,
  profile_invitation_key, account_security_token_key, InvitationRole, ProfileInvitation, Db,
  Platform, Request, FieldRules, user_key, profile_key, profile_membership_key, workspace_key,
  workspace_member_key, task_key, task_assignment_key, task_comment_key, deliverable_key,
  review_key, audit_log_key, notification_key, period_eq, deadline_eq, User, ProfileMembership,
}
use hustly_tasker.Accounts.{normalize_account_email}
use hustly_tasker.Invitations.Fresh.{lock_manager_context-actor, issue_invitation_locked-IsNew}

length-update_where :
    (p test : ProfileInvitation → Bool) (f : ProfileInvitation → ProfileInvitation)
    (table : List ProfileInvitation)
    → ((x : ProfileInvitation) → p (f x) ≡ p x)
    → length (rows p (update_where test f table)) ≡ length (rows p table)
unfolding rows update_where
length-update_where p test f [] keeps = refl
length-update_where p test f (x ∷ table) keeps =
    ground (arith, length-update_where p test f table keeps, keeps x)

length-append :
    (p : ProfileInvitation → Bool) (table : List ProfileInvitation) (row : ProfileInvitation)
    → length (rows p (table ++ row ∷ [])) ≤ suc (length (rows p table))
unfolding rows
length-append p [] row = ground arith
length-append p (x ∷ table) row = ground (arith, length-append p table row)

-- Expiring an invitation keeps each count that does not look at the columns it writes.
pub record IsCountedAs (db after : Db) : Type 0 where
  pub memberships : after.profile_memberships ≡ db.profile_memberships
  pub count :
      (p : ProfileInvitation → Bool)
      → ((now : ℕ) (x : ProfileInvitation) → p (set_expired now x) ≡ p x)
      → length (rows p after.profile_invitations) ≡ length (rows p db.profile_invitations)

same-IsCountedAs : {db after : Db} → db ≡ after → IsCountedAs db after
same-IsCountedAs {db} e =
    subst (IsCountedAs db) e record { memberships = refl; count = λ p keeps. refl }

clear_pending-IsCountedAs :
    (request : Request) (id : ℕ) (found : Option ProfileInvitation) (db : Db) {after : Db}
    → clear_pending request id found db ≡ ok after
    → IsCountedAs db after
unfolding clear_pending materialize_expiration expire
clear_pending-IsCountedAs request id none db h = same-IsCountedAs (ok-injective h)
clear_pending-IsCountedAs request id (some pending) db h =
    >>=-elim (materialize_expiration request id pending db) _ h λ (due, checked) done h₁.
      guard-elim due _ _ h₁ λ _ h₂. elim (Bool-cases (is_due pending request.now)) [
        | inl d ↦
            >>=-elim (expire request id pending db) _ (rw (d, materialize_expiration) at done)
              λ last expired h₃.
                let frame = write_invitation_audit-SameButLogs _ _ _ _ _ _ _ expired in
                let e = ap (λ p. p.1) (ok-injective h₃) ∙ ok-injective h₂ in
                record {
                  memberships = ap (λ d. d.profile_memberships) (sym e) ∙ frame.profile_memberships;
                  count = λ p keeps.
                      ap (λ d. length (rows p d.profile_invitations)) (sym e)
                      ∙ ap (λ t. length (rows p t)) frame.profile_invitations
                      ∙ length-update_where p (λ r. r.id == pending.id) (set_expired request.now)
                          db.profile_invitations (keeps request.now);
                }
        | inr fresh ↦ same-IsCountedAs (
            ap (λ p. p.1) (ok-injective (rw (fresh, materialize_expiration) at done))
            ∙ ok-injective h₂)
      ]

issue-counts :
    (platform : Platform) (rules : FieldRules) (request : Request) (raw_token : Text)
    (new_id : ℕ → ℕ) (scope : ManagerScope) (email : Text) (role : InvitationRole)
    (recipient : Option User) (replaces : Option ProfileInvitation) (db : Db)
    {invitation : ProfileInvitation} {after : Db}
    → issue_invitation_locked platform rules request raw_token new_id scope email role recipient
        replaces db
      ≡ ok (invitation, after)
    → (after.profile_memberships ≡ db.profile_memberships)
      × ((p : ProfileInvitation → Bool)
          → length (rows p after.profile_invitations)
            ≤ suc (length (rows p db.profile_invitations)))
unfolding issue_invitation_locked
issue-counts platform rules request raw_token new_id scope email role recipient replaces db h =
    >>=-elim (raising invitation_conflict (full_clean_invitation platform rules db _)) _ h λ _ _ h₁.
      >>=-elim (raising invitation_conflict (insert _ db.profile_invitations)) _ h₁ λ table put h₂.
        >>=-elim (write_invitation_audit _ _ _ _ _ _ (record db { profile_invitations = table })) _
          h₂
          λ last audit h₃.
            let frame = write_invitation_audit-SameButLogs _ _ _ _ _ _ _ audit in
            let e = ap (λ p. p.1) (ok-injective h₃) in
            let (grown, _) = insert_lem _ db.profile_invitations (raising-eq-ok _ _ put) in
            let same =
              ap (λ d. d.profile_invitations) (sym e) ∙ frame.profile_invitations ∙ grown in
            (
              ap (λ d. d.profile_memberships) (sym e) ∙ frame.profile_memberships,
              λ p.
                  subst (λ t. length (rows p t) ≤ suc (length (rows p db.profile_invitations)))
                    (sym same) (length-append p db.profile_invitations _),
            )

enforce_issuance_limits_lem :
    (actor : ℕ) (email : Text) (now : ℕ) (db : Db)
    → enforce_issuance_limits actor email now db ≡ ok tt
    → (leb max_invitations_per_inviter (inviter_count db actor now) ≡ false)
      × (leb max_invitations_per_recipient (recipient_count db email now) ≡ false)
unfolding enforce_issuance_limits
enforce_issuance_limits_lem actor email now db h =
    or_raise-elim (first (λ (user : User). user.id == actor) db.users) _ _ h
      λ user _ h₁. let passed = guard-eq-ok _ _ h₁ in (ground arith, ground arith)

-- One more row, after expirations, exceeds no limit that was not reached.
below :
    (limit : ℕ) (p : ProfileInvitation → Bool) (first_table mid free after : List ProfileInvitation)
    → leb limit (length (rows p first_table)) ≡ false
    → length (rows p mid) ≡ length (rows p first_table)
    → length (rows p free) ≡ length (rows p mid)
    → length (rows p after) ≤ suc (length (rows p free))
    → length (rows p after) ≤ limit
below limit p first_table mid free after under e₁ e₂ grown = ground arith

-- The new invitation is stored and counts for the actor and for the address, and neither count exceeds
-- its limit.
pub record IsWithinLimits (request : Request) (email : Text) (invitation : ProfileInvitation)
    (after : Db) : Type 0 where
  pub stored : Memᴰ invitation after.profile_invitations
  pub recent : is_recent request.now invitation ≡ true
  pub by_actor : is_issued_by after request.actor invitation ≡ true
  pub to_email : invitation.recipient_email_normalized ≡ email
  pub inviter_limit : inviter_count after request.actor request.now ≤ 30
  pub recipient_limit : recipient_count after email request.now ≤ 5

recent_now :
    (request : Request) (row : ProfileInvitation)
    → row.created_at ≡ request.now
    → is_recent request.now row ≡ true
unfolding is_recent
recent_now request row e = ground (arith, e)

issued_by :
    (actor : ℕ) (membership : ProfileMembership) (row : ProfileInvitation) (db : Db)
    → Memᴰ membership db.profile_memberships
    → membership.user_id ≡ actor
    → row.invited_by_membership_id ≡ membership.id
    → is_issued_by db actor row ≡ true
unfolding is_issued_by
issued_by actor membership row db stored user inviter =
    exists_intro
      (λ (m : ProfileMembership). m.id == row.invited_by_membership_id && m.user_id == actor)
      db.profile_memberships stored (ground (arith, inviter, user))

-- After a `create_profile_invitation` that succeeds, at most thirty invitations of the last 24 hours
-- are by the actor, and at most five are to the address; the new one is stored, is by the actor and
-- to the address, and is among those of the last 24 hours.
pub create_profile_invitation-limits :
    (platform : Platform) (rules : FieldRules) (request : Request) (raw_token : Text)
    (profile_id : Ref) (recipient_email : Option Text) (role : InvitationRole) (db : Db)
    (invitation : ProfileInvitation) (after : Db)
    → create_profile_invitation platform rules request raw_token profile_id recipient_email role db
      ≡ ok (invitation, after)
    → IsWithinLimits request (normalize_account_email platform recipient_email) invitation after
unfolding create_profile_invitation enforce_issuance_limits inviter_count recipient_count
    is_issued_by is_recent set_expired
create_profile_invitation-limits platform rules request raw_token profile_id recipient_email role db
      invitation after h =
    let email = normalize_account_email platform recipient_email in
    guard-elim (not (list_eq.equals email [])) _ _ h λ _ h₁.
      >>=-elim (lock_manager_context request profile_id (some role) db) _ h₁ λ scope managed h₂.
        guard-elim platform.is_delivery_available _ _ h₂ λ _ h₃.
          >>=-elim (enforce_issuance_limits request.actor email request.now db) _ h₃ λ _ limits h₄.
            >>=-elim (clear_pending request _ _ db) _ h₄ λ cleared first_clear h₅.
              >>=-elim (resolve_recipient_account platform cleared email) _ h₅ λ recipient _ h₆.
                guard-elim (not (is_joined cleared scope.profile.id recipient)) _ _ h₆ λ _ h₇.
                  >>=-elim (clear_pending request _ _ cleared) _ h₇ λ free second_clear h₈.
                    let c₁ = clear_pending-IsCountedAs request _ _ db first_clear in
                    let c₂ = clear_pending-IsCountedAs request _ _ cleared second_clear in
                    let (same, grown) =
                      issue-counts platform rules request raw_token _ scope email role recipient
                        none free h₈ in
                    let (by_actor, to_email) =
                      enforce_issuance_limits_lem request.actor email request.now db limits in
                    let issued : List ProfileMembership → ProfileInvitation → Bool = λ table row.
                      exists
                        (λ (m : ProfileMembership).
                          m.id == row.invited_by_membership_id && m.user_id == request.actor)
                        table
                      && is_recent request.now row in
                    let sent : ProfileInvitation → Bool = λ row.
                      list_eq.equals row.recipient_email_normalized email
                      && is_recent request.now row in
                    let kept = same ∙ c₂.memberships ∙ c₁.memberships in
                    let new =
                      issue_invitation_locked-IsNew platform rules request raw_token _ scope email
                        role recipient none free h₈ in
                    let (manager, user) =
                      lock_manager_context-actor request profile_id (some role) db managed in
                    record {
                      stored = new.stored;
                      recent = recent_now request invitation new.created_at;
                      by_actor =
                          issued_by request.actor scope.membership invitation after
                            (subst (Memᴰ scope.membership) (sym kept) manager) user new.inviter;
                      to_email = new.email_is;
                      inviter_limit =
                          subst
                            (λ table.
                              length (rows (issued table) after.profile_invitations)
                              ≤ max_invitations_per_inviter)
                            (sym kept)
                            (below max_invitations_per_inviter (issued db.profile_memberships) _ _ _
                              _ by_actor (c₁.count (issued db.profile_memberships) (λ _ _. refl))
                              (c₂.count (issued db.profile_memberships) (λ _ _. refl))
                              (grown (issued db.profile_memberships)));
                      recipient_limit =
                          below max_invitations_per_recipient sent _ _ _ _ to_email
                            (c₁.count sent (λ _ _. refl)) (c₂.count sent (λ _ _. refl))
                            (grown sent);
                    }
