-- ===== src/Notify/Marked.antt =====
-- What marking a notification as read leaves.
use hustly_tasker.Prelude.{
  ok, >>=-elim, or_raise-elim, guard-elim, ok-injective, refers, exists, save, rows-mem,
  first_sound, Ref, uuid, ◌==◌, nat_eq, string_eq, bool_eq, option_eq, list_eq, ==→≡, Bool-cases,
  mem-update_where_miss, ℕ, ◌≡◌, refl, ap, subst, inl, inr, true, false, ◌&&◌, some, Memᴰ, arith,
  ==-refl, update_where-mem, mem-update_where_hit, sym,
}
use hustly_tasker.Access.{resolve_profile_access_context, resolve_workspace_access_context}
use hustly_tasker.Notify.Readers.{is_visible_notification, notifications_visible_to}
use hustly_tasker.Notify.Reading.{visible_notification, mark_notification_read}
use hustly_tasker.Store.{
  profile_status_eq, profile_role_eq, workspace_status_eq, workspace_role_eq, task_status_eq,
  task_priority_eq, deliverable_status_eq, review_status_eq, event_type_eq, invitation_role_eq,
  invitation_status_eq, delivery_status_eq, token_purpose_eq, token_status_eq,
  profile_invitation_key, account_security_token_key, Db, Request, user_key, profile_key,
  profile_membership_key, workspace_key, workspace_member_key, task_key, task_assignment_key,
  task_comment_key, deliverable_key, review_key, audit_log_key, notification_key, period_eq,
  deadline_eq, Profile, Workspace, Notification,
}

-- What a call of `mark_notification_read` that returned `notification` did.
pub record IsMarked (actor : ℕ) (db : Db) (notification : Notification) (after : Db) : Type 0 where
  pub row : Notification
  pub stored : Memᴰ row db.notifications
  pub own : row.user_id ≡ actor
  pub same : notification ≡ record row { is_read = true }
  pub marked : Memᴰ notification after.notifications
  pub others :
      (x : Notification)
      → (x.id == row.id) ≡ false
      → (Memᴰ x db.notifications → Memᴰ x after.notifications)
        × (Memᴰ x after.notifications → Memᴰ x db.notifications)
  pub frame : after ≡ record db { notifications = after.notifications }

visible_notification-own :
    (db : Db) (actor : ℕ) (notification_id : Ref) (row : Notification)
    → visible_notification db actor notification_id ≡ some row
    → Memᴰ row db.notifications × (row.user_id ≡ actor)
unfolding visible_notification notifications_visible_to is_visible_notification
visible_notification-own db actor notification_id row found =
    let (_, seen) =
      first_sound (λ (r : Notification). refers notification_id r.id)
        (notifications_visible_to db (some actor)) found in
    let (stored, visible) = rows-mem (is_visible_notification db actor) db.notifications seen in
    (stored, ==→≡ row.user_id actor (ground arith))

eta_read : (row : Notification) → row.is_read ≡ true → row ≡ record row { is_read = true }
eta_read row read = ap (λ b. record row { is_read = b }) read

mark_row :
    (actor : ℕ) (db : Db) (row : Notification)
    → Memᴰ row db.notifications
    → row.user_id ≡ actor
    → IsMarked actor db
        (record row { is_read = true })
        (record db {
          notifications =
              save row.id (λ (r : Notification). record r { is_read = true }) db.notifications;
        })
mark_row actor db row stored own = record {
  row = row;
  stored = stored;
  own = own;
  same = refl;
  marked =
      mem-update_where_hit (λ (r : Notification). r.id == row.id)
        (λ (r : Notification). record r { is_read = true }) db.notifications stored
        (==-refl row.id);
  others = λ x other. (
    (λ m. mem-update_where_miss (λ (r : Notification). r.id == row.id) _ db.notifications m other),
    λ m.
        let (old, mo, fate) =
          update_where-mem (λ (r : Notification). r.id == row.id)
            (λ (r : Notification). record r { is_read = true }) db.notifications m in
        elim fate [
          | inl (hit, e) ↦ absurd (ground (arith, ap (λ (r : Notification). r.id) e))
          | inr (_, e) ↦ subst (λ r. Memᴰ r db.notifications) (sym e) mo
        ],
  );
  frame = refl;
}

-- A `mark_notification_read` that succeeds returns a stored notification of the actor, marked as read
-- and otherwise as it was, stores it like that, adds, changes and removes no notification with another
-- id, and changes no other table.
pub mark_notification_read-IsMarked :
    (request : Request) (notification_id : Ref) (db : Db) (notification : Notification) (after : Db)
    → mark_notification_read request notification_id db ≡ ok (notification, after)
    → IsMarked request.actor db notification after
unfolding mark_notification_read
mark_notification_read-IsMarked request notification_id db notification after h =
    or_raise-elim (visible_notification request.before request.actor notification_id) _ _ h
      λ target _ h₁. or_raise-elim target.profile_id _ _ h₁ λ profile_id _ h₂.
        or_raise-elim target.workspace_id _ _ h₂ λ workspace_id _ h₃.
          guard-elim (exists (λ (r : Profile). r.id == profile_id) db.profiles) _ _ h₃ λ _ h₄.
            guard-elim
              (exists (λ (r : Workspace). r.id == workspace_id && r.profile_id == some profile_id)
                db.workspaces)
              _ _ h₄
              λ _ h₅.
                >>=-elim (resolve_profile_access_context db (some request.actor) (uuid profile_id))
                  _ h₅
                  λ context _ h₆.
                    >>=-elim (resolve_workspace_access_context db context (uuid workspace_id)) _ h₆
                      λ _ _ h₇.
                        or_raise-elim (visible_notification db request.actor notification_id) _ _ h₇
                          λ row found h₈.
                            let (stored, own) =
                              visible_notification-own db request.actor notification_id row found in
                            elim (Bool-cases row.is_read) [
                              | inl read ↦
                                  subst (λ p. IsMarked request.actor db p.0 p.1)
                                    (ok-injective (rw read at h₈))
                                    record {
                                      row = row;
                                      stored = stored;
                                      own = own;
                                      same = eta_read row read;
                                      marked = stored;
                                      others = λ x _. ((λ m. m), λ m. m);
                                      frame = refl;
                                    }
                              | inr unread ↦
                                  subst (λ p. IsMarked request.actor db p.0 p.1)
                                    (ok-injective (rw unread at h₈))
                                    (mark_row request.actor db row stored own)
                            ]
