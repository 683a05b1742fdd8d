-- ===== src/Accounts/Resetting.antt =====
-- The token of a password reset: what a locked one is, and the digests that no pending token has.
use hustly_tasker.Prelude.{
  ok, >>=-elim, or_raise-elim, guard-elim, ok-injective, Text, exists, update_where, first, save,
  first_sound, ◌==◌, nat_eq, string_eq, bool_eq, option_eq, list_eq, ==→≡, is_some, UniqueBy,
  update_where-mem, ℕ, ◌≡◌, sym, ap, ◌∙◌, subst, ◌≢◌, inl, inr, Bool, true, false, ◌&&◌, not, List,
  Memᴰ, arith, ◌||◌, String, refl,
}
use hustly_tasker.Accounts.Confirming.{
  is_token_of, lock_candidate, set_token_consumed, TokenCandidate, LockedCandidate,
}
use hustly_tasker.Accounts.Saving.{
  write_fields, clashes_user, save_user_row, set_token_revoked, revoke_tokens, save_user,
  UserFields, is_email_changed, is_password_changed, unverified_if,
}
use hustly_tasker.Store.{
  profile_status_eq, profile_role_eq, workspace_status_eq, workspace_role_eq, task_status_eq,
  task_priority_eq, deliverable_status_eq, review_status_eq, event_type_eq, invitation_role_eq,
  invitation_status_eq, delivery_status_eq, token_purpose_eq, token_status_eq,
  profile_invitation_key, account_security_token_key, DeliveryStatus, TokenPurpose, TokenStatus,
  AccountSecurityToken, Db, Platform, user_key, profile_key, profile_membership_key, workspace_key,
  workspace_member_key, task_key, task_assignment_key, task_comment_key, deliverable_key,
  review_key, audit_log_key, notification_key, period_eq, deadline_eq, User, SameButLogs, Value,
}
use hustly_tasker.Accounts.Records.{write_security_audit}
use hustly_tasker.Workspace.Logged.{add_audit_log-SameButLogs}

-- No pending token has this digest.
abbrev pub NoneWith : Text → List AccountSecurityToken → Type 0
NoneWith digest tokens =
    (token : AccountSecurityToken)
    → Memᴰ token tokens
    → token.token_digest ≡ digest
    → token.status ≢ TokenStatus.pending

pub consumed-NoneWith :
    (now : ℕ) (token : AccountSecurityToken) (tokens : List AccountSecurityToken)
    → UniqueBy (λ (row : AccountSecurityToken). row.token_digest) tokens
    → Memᴰ token tokens
    → NoneWith token.token_digest (save token.id (set_token_consumed now) tokens)
unfolding set_token_consumed
consumed-NoneWith now token tokens unique stored y m same pending =
    let test : AccountSecurityToken → Bool = λ r. r.id == token.id in
    let (x, mx, fate) = update_where-mem test (set_token_consumed now) tokens m in
    elim fate [
      | inl (_, e) ↦ ground (arith, ap (λ (r : AccountSecurityToken). r.status) e)
      | inr (miss, e) ↦
          let found =
            unique x token mx stored
              (ap (λ (r : AccountSecurityToken). r.token_digest) (sym e) ∙ same) in
          ground (arith, ap (λ (r : AccountSecurityToken). r.id) found)
    ]

revoked-NoneWith :
    (now : ℕ) (digest : Text) (p : AccountSecurityToken → Bool) (tokens : List AccountSecurityToken)
    → NoneWith digest tokens
    → NoneWith digest (update_where p (set_token_revoked now) tokens)
unfolding set_token_revoked
revoked-NoneWith now digest p tokens none_with y m same pending =
    let (x, mx, fate) = update_where-mem p (set_token_revoked now) tokens m in
    elim fate [
      | inl (_, e) ↦ ground (arith, ap (λ (r : AccountSecurityToken). r.status) e)
      | inr (_, e) ↦ none_with y (subst (λ r. Memᴰ r tokens) (sym e) mx) same pending
    ]

revoke_tokens-NoneWith :
    (now user_id : ℕ) (email_changed password_changed : Bool) (digest : Text) (db : Db)
    → NoneWith digest db.account_security_tokens
    → NoneWith digest
        (revoke_tokens now user_id email_changed password_changed db).account_security_tokens
unfolding revoke_tokens
revoke_tokens-NoneWith now user_id false false digest db none_with = none_with
revoke_tokens-NoneWith now user_id true false digest db none_with =
    revoked-NoneWith now digest _ db.account_security_tokens none_with
revoke_tokens-NoneWith now user_id false true digest db none_with =
    revoked-NoneWith now digest _ db.account_security_tokens none_with
revoke_tokens-NoneWith now user_id true true digest db none_with =
    revoked-NoneWith now digest _ _
      (revoked-NoneWith now digest _ db.account_security_tokens none_with)

pub save_user_row-tokens :
    (fields : UserFields) (previous user : User) (db : Db) {after : Db}
    → save_user_row fields previous user db ≡ ok after
    → after.account_security_tokens ≡ db.account_security_tokens
unfolding save_user_row
save_user_row-tokens fields previous user db h =
    let written = write_fields fields user previous in
    guard-elim (is_some written.email_verified_at == is_some written.verified_email_normalized) _ _
      h
      λ _ h₁.
        guard-elim (not (exists (clashes_user written) db.users)) _ _ h₁
          λ _ h₂. sym (ap (λ d. d.account_security_tokens) (ok-injective h₂))

-- A save never makes a token pending.
pub save_user-NoneWith :
    (platform : Platform) (now : ℕ) (fields : UserFields) (user saved : User) (digest : Text)
    (db after : Db)
    → NoneWith digest db.account_security_tokens
    → save_user platform now fields user db ≡ ok (saved, after)
    → NoneWith digest after.account_security_tokens
unfolding save_user
save_user-NoneWith platform now fields user saved digest db after none_with h =
    or_raise-elim (first (λ (row : User). row.id == user.id) db.users) _ _ h λ previous _ h₁.
      let changed = is_email_changed platform fields previous user in
      let wide = record fields { verification = fields.verification || changed } in
      let instance_saved = unverified_if changed user in
      >>=-elim (save_user_row wide previous instance_saved db) _ h₁ λ written wrote h₂.
        subst (λ d. NoneWith digest d.account_security_tokens) (ap (λ p. p.1) (ok-injective h₂))
          (revoke_tokens-NoneWith now user.id changed (is_password_changed fields previous user)
            digest written
            (subst (NoneWith digest)
              (sym (save_user_row-tokens wide previous instance_saved db wrote)) none_with))

pub write_security_audit-SameButLogs :
    (id user_id : ℕ) (token : AccountSecurityToken) (action : String) (was is : Value) (db : Db)
    {after : Db}
    → write_security_audit id user_id token action was is db ≡ ok after
    → SameButLogs db after
unfolding write_security_audit
write_security_audit-SameButLogs id user_id token action was is db h =
    add_audit_log-SameButLogs _ db h

same_password :
    (changed : Bool) (user : User) → (unverified_if changed user).password ≡ user.password
unfolding unverified_if
same_password false user = refl
same_password true user = refl

pub save_user-password :
    (platform : Platform) (now : ℕ) (fields : UserFields) (user saved : User) (db after : Db)
    → save_user platform now fields user db ≡ ok (saved, after)
    → saved.password ≡ user.password
unfolding save_user unverified_if
save_user-password platform now fields user saved db after h =
    or_raise-elim (first (λ (row : User). row.id == user.id) db.users) _ _ h λ previous _ h₁.
      let changed = is_email_changed platform fields previous user in
      let wide = record fields { verification = fields.verification || changed } in
      >>=-elim (save_user_row wide previous (unverified_if changed user) db) _ h₁
        λ written _ h₂. ap (λ p. p.0.password) (sym (ok-injective h₂)) ∙ same_password changed user

-- What a token was that `_lock_candidate` returned.
pub record IsLockedToken (candidate : TokenCandidate) (purpose : TokenPurpose)
    (locked : LockedCandidate) (db : Db) : Type 0 where
  pub stored : Memᴰ locked.token db.account_security_tokens
  pub account : Memᴰ locked.user db.users
  pub owner : locked.token.user_id ≡ locked.user.id
  pub purpose_is : locked.token.purpose ≡ purpose
  pub pending : locked.token.status ≡ TokenStatus.pending
  pub sent : locked.token.delivery_status ≡ DeliveryStatus.sent
  pub digest : locked.token.token_digest ≡ candidate.digest

is_token_of_lem :
    (candidate : TokenCandidate) (user_id : ℕ) (purpose : TokenPurpose)
    (token : AccountSecurityToken)
    → is_token_of candidate user_id purpose token ≡ true
    → (token.user_id ≡ user_id)
      × (token.purpose ≡ purpose)
      × (token.token_digest ≡ candidate.digest)
unfolding is_token_of
is_token_of_lem candidate user_id purpose token h = (
  ==→≡ token.user_id user_id (ground arith),
  ==→≡ token.purpose purpose (ground arith),
  (list_eq.equals_iff token.token_digest candidate.digest).0 (ground arith),
)

pub lock_candidate-IsLockedToken :
    (candidate : TokenCandidate) (purpose : TokenPurpose) (db : Db) {locked : LockedCandidate}
    → lock_candidate candidate purpose db ≡ ok locked
    → IsLockedToken candidate purpose locked db
unfolding lock_candidate
lock_candidate-IsLockedToken candidate purpose db h =
    or_raise-elim (first (λ (row : User). row.id == candidate.user_id && row.is_active) db.users) _
      _ h
      λ user account h₁.
        or_raise-elim (first (is_token_of candidate user.id purpose) db.account_security_tokens) _ _
          h₁
          λ token found h₂.
            guard-elim
              (token.status == TokenStatus.pending && token.delivery_status == DeliveryStatus.sent)
              _ _ h₂
              λ passed h₃.
                let (fits, stored) =
                  first_sound (is_token_of candidate user.id purpose) db.account_security_tokens
                    found in
                let (owner, same_purpose, digest) =
                  is_token_of_lem candidate user.id purpose token fits in
                subst (λ l. IsLockedToken candidate purpose l db) (ok-injective h₃)
                  record {
                    stored = stored;
                    account =
                        (first_sound (λ (row : User). row.id == candidate.user_id && row.is_active)
                          db.users account).1;
                    owner = owner;
                    purpose_is = same_purpose;
                    pending = ==→≡ token.status TokenStatus.pending (ground arith);
                    sent = ==→≡ token.delivery_status DeliveryStatus.sent (ground arith);
                    digest = digest;
                  }

-- A digest that no pending token has locks nothing.
pub NoneWith-locks_not :
    (candidate : TokenCandidate) (purpose : TokenPurpose) (db : Db) (locked : LockedCandidate)
    → NoneWith candidate.digest db.account_security_tokens
    → lock_candidate candidate purpose db ≢ ok locked
NoneWith-locks_not candidate purpose db locked none_with h =
    let facts = lock_candidate-IsLockedToken candidate purpose db h in
    none_with locked.token facts.stored facts.digest facts.pending
