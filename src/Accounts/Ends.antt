-- ===== src/Accounts/Ends.antt =====
-- A change of the address or the password ends the tokens that are bound to it.
use hustly_tasker.Prelude.{
  ok, >>=-elim, ok-injective, update_where, first, ◌==◌, nat_eq, string_eq, bool_eq, option_eq,
  list_eq, update_where-mem, ℕ, ◌≡◌, sym, ap, ◌∙◌, subst, ◌≢◌, inl, inr, Bool, true, false, some,
  List, Memᴰ, arith, first_sound, ==→≡, Bool-cases, mem-update_where_hit, refl,
}
use hustly_tasker.Accounts.Saving.{
  is_email_verified, is_email_changed, is_password_changed, save_user_row, set_token_revoked,
  is_pending_token_of, is_pending_reset_of, revoke_tokens, unverified_if, save_user, UserFields,
  write_fields,
}
use hustly_tasker.Store.{
  profile_status_eq, profile_role_eq, workspace_status_eq, workspace_role_eq, task_status_eq,
  task_priority_eq, deliverable_status_eq, review_status_eq, event_type_eq, invitation_role_eq,
  invitation_status_eq, delivery_status_eq, token_purpose_eq, token_status_eq,
  profile_invitation_key, account_security_token_key, TokenPurpose, TokenStatus,
  AccountSecurityToken, Db, Platform, user_key, profile_key, profile_membership_key, workspace_key,
  workspace_member_key, task_key, task_assignment_key, task_comment_key, deliverable_key,
  review_key, audit_log_key, notification_key, period_eq, deadline_eq, User,
}
use hustly_tasker.Accounts.Stored.{saved_fields, saved_instance, save_user-users, saved_row}

-- No token of the user that passes the test is pending.
abbrev pub NonePending : (AccountSecurityToken → Bool) → ℕ → List AccountSecurityToken → Type 0
NonePending test user_id tokens =
    (token : AccountSecurityToken)
    → Memᴰ token tokens
    → token.user_id ≡ user_id
    → test token ≡ true
    → token.status ≢ TokenStatus.pending

-- The update of `User.save` leaves none.
update-NonePending :
    (now user_id : ℕ) (p test : AccountSecurityToken → Bool) (tokens : List AccountSecurityToken)
    → ((token : AccountSecurityToken)
        → token.user_id ≡ user_id
        → test token ≡ true
        → token.status ≡ TokenStatus.pending
        → p token ≡ true)
    → NonePending test user_id (update_where p (set_token_revoked now) tokens)
unfolding set_token_revoked
update-NonePending now user_id p test tokens hits token m own passes pending =
    let (x, mx, fate) = update_where-mem p (set_token_revoked now) tokens m in
    elim fate [
      | inl (_, e) ↦ absurd (ground (arith, ap (λ (r : AccountSecurityToken). r.status) e))
      | inr (miss, e) ↦ absurd (cc (hits token own passes pending, ap p e))
    ]

-- A later update makes no token pending.
again-NonePending :
    (now user_id : ℕ) (p test : AccountSecurityToken → Bool) (tokens : List AccountSecurityToken)
    → NonePending test user_id tokens
    → NonePending test user_id (update_where p (set_token_revoked now) tokens)
unfolding set_token_revoked
again-NonePending now user_id p test tokens none_left token m own passes pending =
    let (x, mx, fate) = update_where-mem p (set_token_revoked now) tokens m in
    elim fate [
      | inl (_, e) ↦ absurd (ground (arith, ap (λ (r : AccountSecurityToken). r.status) e))
      | inr (_, e) ↦ none_left token (subst (λ r. Memᴰ r tokens) (sym e) mx) own passes pending
    ]

abbrev pub any_token : AccountSecurityToken → Bool
any_token token = true

abbrev pub is_reset_token : AccountSecurityToken → Bool
is_reset_token token = token.purpose == TokenPurpose.password_reset

revoke_tokens-email :
    (now user_id : ℕ) (password_changed : Bool) (db : Db)
    → NonePending any_token user_id
        (revoke_tokens now user_id true password_changed db).account_security_tokens
unfolding revoke_tokens is_pending_token_of
revoke_tokens-email now user_id false db =
    update-NonePending now user_id (is_pending_token_of user_id) any_token
      db.account_security_tokens (λ token own _ pending. ground arith)
revoke_tokens-email now user_id true db =
    again-NonePending now user_id (is_pending_reset_of user_id) any_token _ (
      update-NonePending now user_id (is_pending_token_of user_id) any_token
        db.account_security_tokens (λ token own _ pending. ground arith))

revoke_tokens-password :
    (now user_id : ℕ) (email_changed : Bool) (db : Db)
    → NonePending is_reset_token user_id
        (revoke_tokens now user_id email_changed true db).account_security_tokens
unfolding revoke_tokens is_pending_reset_of
revoke_tokens-password now user_id false db =
    update-NonePending now user_id (is_pending_reset_of user_id) is_reset_token _
      (λ token own reset pending. ground arith)
revoke_tokens-password now user_id true db =
    update-NonePending now user_id (is_pending_reset_of user_id) is_reset_token _
      (λ token own reset pending. ground arith)

-- What a save leaves, by what it changed: of the returned instance, of the user's stored row and of
-- the tokens.
pub record IsSaved (platform : Platform) (fields : UserFields) (previous user saved : User)
    (after : Db) : Type 0 where
  pub account : (row : User) × Memᴰ row after.users × (row.id ≡ user.id)
  pub email_ends :
      is_email_changed platform fields previous user ≡ true
      → (is_email_verified platform saved ≡ false)
        × ((row : User)
            → Memᴰ row after.users
            → row.id ≡ user.id
            → (row.email ≡ user.email) × (is_email_verified platform row ≡ false))
        × NonePending any_token user.id after.account_security_tokens
  pub password_ends :
      is_password_changed fields previous user ≡ true
      → ((row : User) → Memᴰ row after.users → row.id ≡ user.id → row.password ≡ user.password)
        × NonePending is_reset_token user.id after.account_security_tokens

saved_password :
    (platform : Platform) (fields : UserFields) (previous user x : User)
    → is_password_changed fields previous user ≡ true
    → (write_fields
        (saved_fields platform fields previous user)
        (saved_instance platform fields previous user)
        x).password
      ≡ user.password
unfolding is_password_changed write_fields unverified_if
saved_password platform fields previous user x changed =
    elim (Bool-cases (is_email_changed platform fields previous user)) [
      | inl e ↦ ground (arith, e)
      | inr e ↦ ground (arith, e)
    ]

saved_email :
    (platform : Platform) (fields : UserFields) (previous user x : User)
    → is_email_changed platform fields previous user ≡ true
    → ((write_fields
          (saved_fields platform fields previous user)
          (saved_instance platform fields previous user)
          x).email
        ≡ user.email)
      × (is_email_verified platform (
            write_fields
              (saved_fields platform fields previous user)
              (saved_instance platform fields previous user)
              x)
          ≡ false)
unfolding is_email_changed write_fields unverified_if is_email_verified
saved_email platform fields previous user x changed = (ground arith, ground arith)

write_fields-id : (fields : UserFields) (user x : User) → (write_fields fields user x).id ≡ x.id
unfolding write_fields
write_fields-id fields user x = refl

-- After a `User.save` of a stored user that succeeds, the user is stored. If the normalized address
-- has changed, the returned and the stored address are not verified, the stored address is the new one
-- and the user has no pending token. If the password has changed, the stored password is the new one
-- and the user has no pending reset token.
pub save_user-IsSaved :
    (platform : Platform) (now : ℕ) (fields : UserFields) (previous user saved : User)
    (db after : Db)
    → first (λ (row : User). row.id == user.id) db.users ≡ some previous
    → save_user platform now fields user db ≡ ok (saved, after)
    → IsSaved platform fields previous user saved after
unfolding save_user unverified_if is_email_verified
save_user-IsSaved platform now fields previous user saved db after found h =
    let email = is_email_changed platform fields previous user in
    let password = is_password_changed fields previous user in
    >>=-elim (save_user_row _ previous (unverified_if email user) db) _ (rw (found, save_user) at h)
      λ written _ h₁.
        let e = ok-injective h₁ in
        let wide = saved_fields platform fields previous user in
        let new = saved_instance platform fields previous user in
        let table = save_user-users platform now fields previous user saved db after found h in
        let (named, stored) = first_sound (λ (row : User). row.id == user.id) db.users found in
        let from : (row : User)
            → Memᴰ row after.users
            → row.id ≡ user.id
            → (x : User) × (row ≡ write_fields wide new x) =
          λ row m own.
            saved_row (write_fields wide new) user.id db.users row (write_fields-id wide new)
              (subst (Memᴰ row) table m) own in
        record {
          account = (
            write_fields wide new previous,
            subst (Memᴰ _) (sym table) (
                mem-update_where_hit (λ (row : User). row.id == user.id) (write_fields wide new)
                  db.users stored named),
            write_fields-id wide new previous ∙ ==→≡ previous.id user.id named,
          );
          email_ends = λ changed. (
            ap (λ p. is_email_verified platform p.0) (sym e)
                ∙ ap (λ b. is_email_verified platform (unverified_if b user)) changed,
            λ row m own.
                let (x, same) = from row m own in
                let (email_is, unverified) = saved_email platform fields previous user x changed in
                (
                  ap (λ (r : User). r.email) same ∙ email_is,
                  ap (is_email_verified platform) same ∙ unverified,
                ),
            subst (λ d. NonePending any_token user.id d.account_security_tokens)
                (ap (λ b. revoke_tokens now user.id b password written) (sym changed)
                  ∙ ap (λ p. p.1) e)
                (revoke_tokens-email now user.id password written),
          );
          password_ends = λ changed. (
            λ row m own.
                let (x, same) = from row m own in
                ap (λ (r : User). r.password) same
                ∙ saved_password platform fields previous user x changed,
            subst (λ d. NonePending is_reset_token user.id d.account_security_tokens)
                (ap (λ b. revoke_tokens now user.id email b written) (sym changed)
                  ∙ ap (λ p. p.1) e)
                (revoke_tokens-password now user.id email written),
          );
        }
