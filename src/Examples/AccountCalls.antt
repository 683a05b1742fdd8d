-- ===== src/Examples/AccountCalls.antt =====
-- Accounts and their tokens, and the life of a Profile, at calls that succeed.
use hustly_tasker.Accounts.History.{
  request_reset, confirm_reset, account_history, account_history-OnePendingToken,
  account_history-refuses, AccountCall,
}
use hustly_tasker.Prelude.{
  err, ok, returned, Result, Outcome, is_space, lstrip, is_encodable, strip, strip_or_blank, exists,
  rows, update_where, first, insert, distinct-UniqueBy, ◌+◌, ◌≡◌, refl, sym, ap, ◌∙◌, ◌≢◌, true,
  false, some, [], ◌∷◌, arith, err, List, Memᴰ,
}
use hustly_tasker.Access.{
  can_manage_profile_lifecycle, user_is_active, is_usable_membership,
  resolve_profile_access_context, is_membership_of, refresh_profile_access_context,
}
use hustly_tasker.Accounts.{
  is_candidate, lookup_candidate, is_token_of, lock_candidate, validate_locked_identity,
  set_token_consumed, password_fields, confirm_password_reset, normalize_account_email, sole_match,
  resolve_unique_user_for_email, digest_prefix, digest_account_security_token, password_fingerprint,
  save_token, is_due_token, materialize_token_expiration, write_security_audit, is_sole_account,
  resolve_current_unique_user, is_email_changed, is_password_changed, write_fields, clashes_user,
  save_user_row, set_token_revoked, is_pending_token_of, is_pending_reset_of, revoke_tokens,
  unverified_if, save_user, UserFields,
}
use hustly_tasker.Accounts.Ends.{save_user-IsSaved, IsSaved}
use hustly_tasker.Accounts.Once.{confirm_password_reset-IsReset, IsReset}
use hustly_tasker.Accounts.Resetting.{NoneWith}
use hustly_tasker.Examples.Inbox.{zeros, plain, call_on, a_token, inbox, reset_token}
use hustly_tasker.Examples.Office.{
  user_row, office, call_of, all_accepted, profile_ref, db_of, alone,
}
use hustly_tasker.Store.{
  ProfileStatus, profile_invitation_key, account_security_token_key, TokenStatus,
  AccountSecurityToken, Db, user_key, profile_key, profile_membership_key, workspace_key,
  workspace_member_key, task_key, task_assignment_key, task_comment_key, deliverable_key,
  review_key, audit_log_key, notification_key, User, Profile,
}
use hustly_tasker.Workspace.{
  profile_status_text, status_state, add_audit_log, write_profile_audit, is_owner_row,
  set_profile_status, archive_profile, restore_profile, profile_by_id,
}
use hustly_tasker.Workspace.RoundTrip.{archive_profile-restore_profile}
use hustly_tasker.Accounts.Steps.{OnePendingToken}

abbrev editor : User
editor = user_row 2 true

abbrev renamed : User
renamed = record editor { email = 122 ∷ [] }

abbrev address_fields : UserFields
address_fields = record { is_active = false; email = true; password = false; verification = false }

abbrev saved : Result (User × Db)
saved = save_user plain 9 address_fields renamed inbox

save_user-IsSaved_example : IsSaved plain address_fields editor renamed renamed (db_of saved)
unfolding save_user is_email_changed normalize_account_email strip_or_blank strip lstrip is_space
    is_password_changed unverified_if save_user_row write_fields clashes_user revoke_tokens
    is_pending_token_of is_pending_reset_of set_token_revoked first exists update_where
save_user-IsSaved_example =
    save_user-IsSaved plain 9 address_fields editor renamed renamed inbox (db_of saved) refl refl

abbrev reset : Result (Outcome User × Db)
reset = confirm_password_reset plain (call_on 2 inbox) [] (some a_token) (113 ∷ []) inbox

abbrev reset_user : User
reset_user = record editor { password = 113 ∷ [] }

confirm_password_reset-IsReset_example :
    IsReset plain (call_on 2 inbox) [] (113 ∷ []) (zeros 64) inbox reset_user (db_of reset)
unfolding confirm_password_reset lookup_candidate digest_account_security_token digest_prefix
    is_encodable is_candidate lock_candidate is_token_of materialize_token_expiration is_due_token
    validate_locked_identity normalize_account_email strip_or_blank strip lstrip is_space
    resolve_current_unique_user resolve_unique_user_for_email sole_match is_sole_account
    password_fingerprint save_token set_token_consumed password_fields save_user is_email_changed
    is_password_changed unverified_if save_user_row write_fields clashes_user revoke_tokens
    is_pending_token_of is_pending_reset_of set_token_revoked write_security_audit add_audit_log
    first exists rows update_where insert
confirm_password_reset-IsReset_example =
    confirm_password_reset-IsReset plain (call_on 2 inbox) [] (some a_token) (113 ∷ []) inbox
      (zeros 64) reset_user (db_of reset) (λ x y mx my _. alone mx ∙ sym (alone my)) refl refl

-- The inbox after the token was used.
abbrev used : Db
used = record inbox {
  account_security_tokens =
      record reset_token { status = TokenStatus.consumed; consumed_at = some 3 } ∷ [];
}

used_token : NoneWith (zeros 64) used.account_security_tokens
used_token token m _ pending = ground (arith, ap (λ (t : AccountSecurityToken). t.status) (alone m))

abbrev later_calls : List AccountCall
later_calls =
    request_reset (call_on 2 used) a_token (some (99 ∷ []))
    ∷ confirm_reset (call_on 2 used) [] (some a_token) (113 ∷ [])
    ∷ []

account_history-refuses_example :
    confirm_password_reset plain
      (call_on 2 inbox)
      []
      (some a_token)
      (113 ∷ [])
      (account_history plain all_accepted later_calls used)
    ≢ ok (returned reset_user, used)
unfolding digest_account_security_token digest_prefix is_encodable
account_history-refuses_example =
    account_history-refuses plain all_accepted later_calls used (call_on 2 inbox) [] (some a_token)
      (113 ∷ []) (zeros 64) (returned reset_user) used
      (record {
        token = record reset_token { status = TokenStatus.consumed; consumed_at = some 3 };
        stored = Memᴰ.head refl;
        own = refl;
        over = used_token;
      })
      refl

account_history-OnePendingToken_example :
    OnePendingToken (account_history plain all_accepted later_calls inbox).account_security_tokens
account_history-OnePendingToken_example =
    account_history-OnePendingToken plain all_accepted later_calls inbox
      (λ x y mx my _ _ _ _. alone mx ∙ sym (alone my))

abbrev archived : Result (Profile × Db)
archived = archive_profile all_accepted (call_of 1) profile_ref office

abbrev restored : Result (Profile × Db)
restored =
    restore_profile all_accepted (record (call_of 1) { new_id = λ k. k + 950 }) profile_ref
      (db_of archived)

abbrev profile_of : Result (Profile × Db) → Profile
profile_of (ok (profile, after)) = profile
profile_of (err e) = record { id = 0; name = []; status = ProfileStatus.active }

archive_profile-restore_profile_example : (db_of restored).profiles ≡ office.profiles
unfolding archive_profile restore_profile set_profile_status resolve_profile_access_context
    is_usable_membership user_is_active profile_by_id is_owner_row is_membership_of
    can_manage_profile_lifecycle refresh_profile_access_context write_profile_audit add_audit_log
    profile_status_text status_state first exists insert update_where
archive_profile-restore_profile_example =
    archive_profile-restore_profile all_accepted (call_of 1)
      (record (call_of 1) { new_id = λ k. k + 950 }) profile_ref profile_ref office (db_of archived)
      (db_of restored) (profile_of archived) (profile_of restored)
      (distinct-UniqueBy (λ p. p.id) office.profiles refl)
      (λ row m _. ap (λ (p : Profile). p.status) (alone m)) refl refl refl
