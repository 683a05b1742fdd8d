-- ===== src/Accounts/Once.antt =====
-- A password reset: what its token was, what it leaves, and that a used token is refused.
use hustly_tasker.Prelude.{
  nat_eq, ok, returned, raised, >>=-elim, or_raise-elim, guard-elim, ok-injective, Outcome, Text,
  first, list_eq, Bool-cases, UniqueBy, ℕ, ◌≡◌, sym, ap, ◌∙◌, subst, ◌≢◌, ◌⊎◌, inl, inr, Bool, true,
  false, ◌&&◌, Option, Memᴰ, arith, save, [], raised_not,
}
use hustly_tasker.Accounts.Confirming.{
  is_candidate, lookup_candidate, lock_candidate, validate_locked_identity, set_token_consumed,
  password_fields, fingerprint_or_blank, confirm_password_reset, TokenCandidate,
}
use hustly_tasker.Accounts.Issuing.{
  digest_account_security_token, password_fingerprint, set_token_expired, save_token, is_due_token,
  materialize_token_expiration,
}
use hustly_tasker.Accounts.Records.{write_security_audit}
use hustly_tasker.Accounts.Resetting.{
  NoneWith, lock_candidate-IsLockedToken, NoneWith-locks_not, consumed-NoneWith, save_user-NoneWith,
  write_security_audit-SameButLogs, save_user-password,
}
use hustly_tasker.Accounts.Saving.{save_user}
use hustly_tasker.Store.{
  profile_invitation_key, account_security_token_key, TokenPurpose, TokenStatus,
  AccountSecurityToken, Db, Platform, Request, user_key, profile_key, profile_membership_key,
  workspace_key, workspace_member_key, task_key, task_assignment_key, task_comment_key,
  deliverable_key, review_key, audit_log_key, notification_key, User, SameButLogs,
}
use hustly_tasker.Accounts.Stored.{save_user-password_users}

-- A token that is not due changes nothing.
fresh_lem :
    (request : Request) (id : ℕ) (token : AccountSecurityToken) (db : Db) {expired : Bool}
    {after : Db}
    → materialize_token_expiration request id token db ≡ ok (expired, after)
    → (expired ≡ true)
      ⊎ ((after ≡ db) × (expired ≡ false) × (is_due_token token request.now ≡ false))
unfolding materialize_token_expiration
fresh_lem request id token db h = elim (Bool-cases (is_due_token token request.now)) [
  | inl due ↦
      >>=-elim (write_security_audit id token.user_id (set_token_expired request.now token) _ _ _ _)
        _ (rw (due, materialize_token_expiration) at h)
        λ last _ h₁. inl (sym (ap (λ p. p.0) (ok-injective h₁)))
  | inr fresh ↦
      let e = ok-injective (rw (fresh, materialize_token_expiration) at h) in
      inr (sym (ap (λ p. p.1) e), sym (ap (λ p. p.0) e), fresh)
]

lookup_candidate-digest :
    (platform : Platform) (db : Db) (raw_token : Option Text) (purpose : TokenPurpose)
    (digest : Text) {candidate : TokenCandidate}
    → digest_account_security_token platform raw_token purpose ≡ ok digest
    → lookup_candidate platform db raw_token purpose ≡ ok candidate
    → candidate.digest ≡ digest
unfolding lookup_candidate
lookup_candidate-digest platform db raw_token purpose digest known h =
    >>=-elim (digest_account_security_token platform raw_token purpose) _ h λ found here h₁.
      or_raise-elim (first (is_candidate found purpose) db.account_security_tokens) _ _ h₁
        λ row _ h₂. sym (ap (λ c. c.digest) (ok-injective h₂)) ∙ ok-injective (sym here ∙ known)

-- A reset with a token whose digest no pending token has does not succeed, whoever calls it and
-- whatever the reads before the locks saw.
pub confirm_password_reset-refuses :
    (platform : Platform) (request : Request) (salt : Text) (raw_token : Option Text)
    (new_password : Text) (db : Db) (digest : Text) (outcome : Outcome User) (after : Db)
    → digest_account_security_token platform raw_token TokenPurpose.password_reset ≡ ok digest
    → NoneWith digest db.account_security_tokens
    → confirm_password_reset platform request salt raw_token new_password db ≢ ok (outcome, after)
unfolding confirm_password_reset
confirm_password_reset-refuses platform request salt raw_token new_password db digest outcome after
      known none_with h =
    let purpose = TokenPurpose.password_reset in
    >>=-elim (lookup_candidate platform request.before raw_token purpose) _ h λ candidate looked h₁.
      >>=-elim (lock_candidate candidate purpose db) _ h₁ λ locked lock _.
        NoneWith-locks_not candidate purpose db locked
          (subst (λ d. NoneWith d db.account_security_tokens)
            (sym (
              lookup_candidate-digest platform request.before raw_token purpose digest known
                looked))
            none_with)
          lock

-- What a reset that returned `user` was and left, for the token's digest.
pub record IsReset (platform : Platform) (request : Request) (salt new_password digest : Text)
    (db : Db) (user : User) (after : Db) : Type 0 where
  pub token : AccountSecurityToken
  pub stored : Memᴰ token db.account_security_tokens
  pub purpose : token.purpose ≡ TokenPurpose.password_reset
  pub pending : token.status ≡ TokenStatus.pending
  pub unexpired : is_due_token token request.now ≡ false
  pub old : User
  pub account : Memᴰ old db.users
  pub owner : token.user_id ≡ old.id
  pub bound :
      list_eq.equals
        (fingerprint_or_blank token.password_fingerprint)
        (password_fingerprint platform old)
      ≡ true
  pub password : user.password ≡ platform.make_password salt new_password
  pub users :
      after.users
      ≡ save old.id
          (λ row. record row { password = platform.make_password salt new_password })
          db.users
  pub used : NoneWith digest after.account_security_tokens

password_of : Outcome User → Text
password_of (returned user) = user.password
password_of (raised e) = []

-- Writing the audit row and returning keep a digest used.
used_up :
    {digest own : Text} {user : User} {outcome : Outcome User} {written last after : Db}
    → own ≡ digest
    → ◌≡◌ {A = Outcome User × Db} (outcome, last) (returned user, after)
    → SameButLogs written last
    → NoneWith own written.account_security_tokens
    → NoneWith digest after.account_security_tokens
used_up {own} {after} same e frame none_with =
    subst (λ d. NoneWith d after.account_security_tokens) same
      (subst (λ p. NoneWith own p.1.account_security_tokens) e
        (subst (NoneWith own) (sym frame.account_security_tokens) none_with))

-- If token digests are unique, a `confirm_password_reset` that returns a user had a stored, pending
-- and unexpired reset token of a stored account, bound to the fingerprint of that account's password.
-- The returned and the stored user then have the new password, the table of users is otherwise as it
-- was, and no token with that digest is pending.
pub confirm_password_reset-IsReset :
    (platform : Platform) (request : Request) (salt : Text) (raw_token : Option Text)
    (new_password : Text) (db : Db) (digest : Text) (user : User) (after : Db)
    → UniqueBy (λ (row : AccountSecurityToken). row.token_digest) db.account_security_tokens
    → digest_account_security_token platform raw_token TokenPurpose.password_reset ≡ ok digest
    → confirm_password_reset platform request salt raw_token new_password db
      ≡ ok (returned user, after)
    → IsReset platform request salt new_password digest db user after
unfolding confirm_password_reset save_token password_of
confirm_password_reset-IsReset platform request salt raw_token new_password db digest user after
      unique known h =
    let purpose = TokenPurpose.password_reset in
    >>=-elim (lookup_candidate platform request.before raw_token purpose) _ h λ candidate looked h₁.
      >>=-elim (lock_candidate candidate purpose db) _ h₁ λ locked lock h₂.
        >>=-elim (materialize_token_expiration request _ locked.token db) _ h₂
          λ (expired, checked) done h₃.
            let facts = lock_candidate-IsLockedToken candidate purpose db lock in
            let own =
              facts.digest
              ∙ lookup_candidate-digest platform request.before raw_token purpose digest known
                  looked in
            elim (fresh_lem request _ locked.token db done) [
              | inl due ↦ absurd (raised_not (ap (λ p. p.0) (ok-injective (rw due at h₃))))
              | inr (same, not_expired, fresh) ↦
                  >>=-elim (validate_locked_identity platform checked locked) _
                    (rw not_expired at h₃)
                    λ email _ h₄.
                      guard-elim
                        (platform.is_usable_password locked.user.password
                          && list_eq.equals (fingerprint_or_blank locked.token.password_fingerprint)
                              (password_fingerprint platform locked.user))
                        _ _ h₄
                        λ bound h₅.
                          guard-elim (platform.is_valid_password locked.user new_password) _ _ h₅
                            λ _ h₆.
                              let consumed =
                                save_token locked.token (set_token_consumed request.now) checked in
                              let changed = record locked.user {
                                password = platform.make_password salt new_password;
                              } in
                              >>=-elim
                                (save_user platform request.now password_fields changed consumed) _
                                h₆
                                λ (saved, written) wrote h₇.
                                  >>=-elim (write_security_audit _ _ _ _ _ _ written) _ h₇
                                    λ last audit h₈. record {
                                      token = locked.token;
                                      stored = facts.stored;
                                      purpose = facts.purpose_is;
                                      pending = facts.pending;
                                      unexpired = fresh;
                                      old = locked.user;
                                      account = facts.account;
                                      owner = facts.owner;
                                      bound = ground arith;
                                      password =
                                          sym (ap (λ p. password_of p.0) (ok-injective h₈))
                                          ∙ save_user-password platform request.now password_fields
                                              changed saved consumed written wrote;
                                      users =
                                          ap (λ p. p.1.users) (sym (ok-injective h₈))
                                          ∙ (write_security_audit-SameButLogs _ _ _ _ _ _ written
                                              audit).users
                                          ∙ save_user-password_users platform request.now changed
                                              saved consumed written wrote
                                          ∙ ap
                                              (λ (d : Db).
                                                save locked.user.id
                                                  (λ row. record row {
                                                    password =
                                                        platform.make_password salt new_password;
                                                  })
                                                  d.users)
                                              same;
                                      used =
                                          used_up own (ok-injective h₈)
                                            (write_security_audit-SameButLogs _ _ _ _ _ _ written
                                              audit)
                                            (save_user-NoneWith platform request.now password_fields
                                              changed saved locked.token.token_digest consumed
                                              written
                                              (subst
                                                (λ d. NoneWith locked.token.token_digest (
                                                  save locked.token.id
                                                    (set_token_consumed request.now)
                                                    d.account_security_tokens))
                                                (sym same)
                                                (consumed-NoneWith request.now locked.token
                                                  db.account_security_tokens unique facts.stored))
                                              wrote);
                                    }
            ]
