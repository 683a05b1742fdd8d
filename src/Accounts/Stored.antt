-- ===== src/Accounts/Stored.antt =====
-- What a save writes to the table of users.
use hustly_tasker.Prelude.{
  ok, >>=-elim, ok-injective, first, ◌==◌, nat_eq, string_eq, bool_eq, option_eq, list_eq,
  update_where-mem, ℕ, ◌≡◌, sym, ap, ◌∙◌, inl, inr, Bool, true, false, some, List, Memᴰ, arith,
  or_raise-elim, guard-elim, exists, save, is_some, refl, ◌||◌, not,
}
use hustly_tasker.Accounts.Saving.{
  is_email_changed, save_user_row, revoke_tokens, unverified_if, save_user, UserFields,
  write_fields, clashes_user,
}
use hustly_tasker.Store.{
  profile_status_eq, profile_role_eq, workspace_status_eq, workspace_role_eq, task_status_eq,
  task_priority_eq, deliverable_status_eq, review_status_eq, event_type_eq, invitation_role_eq,
  invitation_status_eq, delivery_status_eq, token_purpose_eq, token_status_eq,
  profile_invitation_key, account_security_token_key, Db, Platform, user_key, profile_key,
  profile_membership_key, workspace_key, workspace_member_key, task_key, task_assignment_key,
  task_comment_key, deliverable_key, review_key, audit_log_key, notification_key, period_eq,
  deadline_eq, User,
}
use hustly_tasker.Accounts.Confirming.{password_fields}

-- The columns of a save, with the verification if the address has changed.
abbrev pub saved_fields : Platform → UserFields → User → User → UserFields
saved_fields platform fields previous user = record fields {
  verification = fields.verification || is_email_changed platform fields previous user;
}

abbrev pub saved_instance : Platform → UserFields → User → User → User
saved_instance platform fields previous user =
    unverified_if (is_email_changed platform fields previous user) user

pub save_user_row-users :
    (fields : UserFields) (previous user : User) (db : Db) {after : Db}
    → save_user_row fields previous user db ≡ ok after
    → after.users ≡ save user.id (write_fields fields user) db.users
unfolding save_user_row
save_user_row-users fields previous user db h =
    let written = write_fields fields user previous in
    guard-elim (is_some written.email_verified_at == is_some written.verified_email_normalized) _ _
      h
      λ _ h₁.
        guard-elim (not (exists (clashes_user written) db.users)) _ _ h₁
          λ _ h₂. ap (λ d. d.users) (sym (ok-injective h₂))

same_id : (changed : Bool) (user : User) → (unverified_if changed user).id ≡ user.id
unfolding unverified_if
same_id false user = refl
same_id true user = refl

pub save_user-users :
    (platform : Platform) (now : ℕ) (fields : UserFields) (previous user saved : User)
    (db after : Db)
    → first (λ (row : User). row.id == user.id) db.users ≡ some previous
    → save_user platform now fields user db ≡ ok (saved, after)
    → after.users
      ≡ save user.id
          (write_fields
            (saved_fields platform fields previous user)
            (saved_instance platform fields previous user))
          db.users
unfolding save_user revoke_tokens
save_user-users platform now fields previous user saved db after found h =
    let wide = saved_fields platform fields previous user in
    let new = saved_instance platform fields previous user in
    let changed = is_email_changed platform fields previous user in
    >>=-elim (save_user_row wide previous new db) _ (rw (found, save_user) at h) λ written wrote h₁.
      ap (λ p. p.1.users) (sym (ok-injective h₁))
      ∙ save_user_row-users wide previous new db wrote
      ∙ ap (λ i. save i (write_fields wide new) db.users) (same_id changed user)

-- A row of the user in a table of users that `save` has written is the result of that write.
pub saved_row :
    (f : User → User) (id : ℕ) (users : List User) (row : User)
    → ((x : User) → (f x).id ≡ x.id)
    → Memᴰ row (save id f users)
    → row.id ≡ id
    → (x : User) × (row ≡ f x)
saved_row f id users row keeps m own =
    let (x, mx, fate) = update_where-mem (λ (r : User). r.id == id) f users m in
    elim fate [
      | inl (_, e) ↦ (x, e)
      | inr (miss, e) ↦ absurd (ground (arith, ap (λ (r : User). r.id) e))
    ]

-- A save of the password writes that column alone.
pub save_user-password_users :
    (platform : Platform) (now : ℕ) (user saved : User) (db after : Db)
    → save_user platform now password_fields user db ≡ ok (saved, after)
    → after.users ≡ save user.id (λ row. record row { password = user.password }) db.users
unfolding password_fields is_email_changed unverified_if write_fields save_user
save_user-password_users platform now user saved db after h =
    or_raise-elim (first (λ (row : User). row.id == user.id) db.users) _ _ h λ previous found _.
      save_user-users platform now password_fields previous user saved db after found h
