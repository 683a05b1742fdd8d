-- ===== src/Notify/Replay.antt =====
-- Delivering an event again creates nothing.
use hustly_tasker.Store.{
  notification_key, EventType, Db, user_key, profile_key, profile_membership_key, workspace_key,
  workspace_member_key, task_key, task_assignment_key, task_comment_key, deliverable_key,
  review_key, audit_log_key, Task, AuditLog, Notification, profile_status_eq, profile_role_eq,
  workspace_status_eq, workspace_role_eq, task_status_eq, task_priority_eq, deliverable_status_eq,
  review_status_eq, event_type_eq, period_eq, deadline_eq,
}
use hustly_tasker.Notify.Emit.{new_notification, is_delivery_of, deliver}
use hustly_tasker.Prelude.{
  >>=-elim, ok-injective, exists, first, exists_intro, exists_elim, insert, Option-cases,
  mem-append_left, insert_lem, ℕ, suc, ◌≡◌, sym, ap, subst, inl, inr, Bool, true, List, [], ◌∷◌,
  ◌++◌, Memᴰ, ok, uncons, first_sound, first_complete, nat_eq, string_eq, bool_eq, option_eq,
  list_eq, ==-refl, mem-append_last, refl, some, arith,
}

-- Each user has the notification of the event.
abbrev pub IsDelivered : ℕ → List ℕ → Db → Type 0
IsDelivered event_id users db =
    (u : ℕ) → Memᴰ u users → exists (is_delivery_of event_id u) db.notifications ≡ true

exists-append :
    {A : Type 0} (p : A → Bool) (xs : List A) (y : A)
    → exists p xs ≡ true
    → exists p (xs ++ y ∷ []) ≡ true
exists-append p xs y h =
    let (x, m, px) = exists_elim p xs h in
    exists_intro p (xs ++ y ∷ []) (mem-append_left xs (y ∷ []) m) px

-- A delivery that is there stays there.
deliver_keeps :
    (ids : ℕ → ℕ) (event_type : EventType) (event : AuditLog) (profile_id : ℕ) (task : Task)
    (users : List ℕ) (db : Db) (p : Notification → Bool) {created : List Notification} {after : Db}
    → deliver ids event_type event profile_id task users db ≡ ok (created, after)
    → exists p db.notifications ≡ true
    → exists p after.notifications ≡ true
unfolding deliver
deliver_keeps ids event_type event profile_id task [] db p h has =
    subst (λ d. exists p d.notifications ≡ true) (ap (λ q. q.1) (ok-injective h)) has
deliver_keeps ids event_type event profile_id task (u ∷ users) db p h has =
    elim (Option-cases (first (is_delivery_of event.id u) db.notifications)) [
      | inr (existing, found) ↦
          >>=-elim (deliver (λ k. ids (suc k)) event_type event profile_id task users db) _
            (rw (deliver, found) at h)
            λ (others, last) again h₁.
              subst (λ d. exists p d.notifications ≡ true) (ap (λ q. q.1) (ok-injective h₁))
                (deliver_keeps (λ k. ids (suc k)) event_type event profile_id task users db p again
                  has)
      | inl missing ↦
          let new = new_notification (ids 0) u event_type event profile_id task in
          >>=-elim (insert new db.notifications) _ (rw (deliver, missing) at h) λ table put h₁.
            >>=-elim
              (deliver (λ k. ids (suc k)) event_type event profile_id task users
                (record db { notifications = table }))
              _ h₁
              λ (others, last) again h₂.
                subst (λ d. exists p d.notifications ≡ true) (ap (λ q. q.1) (ok-injective h₂))
                  (deliver_keeps (λ k. ids (suc k)) event_type event profile_id task users
                    (record db { notifications = table }) p again
                    (subst (λ t. exists p t ≡ true) (sym (insert_lem new db.notifications put).0)
                      (exists-append p db.notifications new has)))
    ]

new_notification_lem :
    (id u : ℕ) (event_type : EventType) (event : AuditLog) (profile_id : ℕ) (task : Task)
    → is_delivery_of event.id u (new_notification id u event_type event profile_id task) ≡ true
unfolding is_delivery_of new_notification
new_notification_lem id u event_type event profile_id task =
    ground (arith, ==-refl (some event.id), ==-refl u)

deliver-IsDelivered :
    (ids : ℕ → ℕ) (event_type : EventType) (event : AuditLog) (profile_id : ℕ) (task : Task)
    (users : List ℕ) (db : Db) {created : List Notification} {after : Db}
    → deliver ids event_type event profile_id task users db ≡ ok (created, after)
    → IsDelivered event.id users after
unfolding deliver
deliver-IsDelivered ids event_type event profile_id task [] db h v m = elim m [ ]
deliver-IsDelivered ids event_type event profile_id task (u ∷ users) db {after = final} h v m =
    let later : ℕ → ℕ = λ k. ids (suc k) in
    elim (Option-cases (first (is_delivery_of event.id u) db.notifications)) [
      | inr (existing, found) ↦
          let (fits, stored) = first_sound (is_delivery_of event.id u) db.notifications found in
          >>=-elim (deliver later event_type event profile_id task users db) _
            (rw (deliver, found) at h)
            λ (others, last) again h₁.
              let same : last ≡ final = ap (λ q. q.1) (ok-injective h₁) in
              rw (← same) (elim (uncons m) [
                | inl e ↦ rw e (
                    deliver_keeps later event_type event profile_id task users db
                      (is_delivery_of event.id u) again
                      (exists_intro (is_delivery_of event.id u) db.notifications stored fits))
                | inr rest ↦
                    deliver-IsDelivered later event_type event profile_id task users db again v rest
              ])
      | inl missing ↦
          let new = new_notification (ids 0) u event_type event profile_id task in
          >>=-elim (insert new db.notifications) _ (rw (deliver, missing) at h) λ table put h₁.
            let grown : Db = record db { notifications = table } in
            >>=-elim (deliver later event_type event profile_id task users grown) _ h₁
              λ (others, last) again h₂.
                let same : last ≡ final = ap (λ q. q.1) (ok-injective h₂) in
                let stored : Memᴰ new table =
                  rw (insert_lem new db.notifications put).0
                    (mem-append_last db.notifications new) in
                rw (← same) (elim (uncons m) [
                  | inl e ↦ rw e (
                      deliver_keeps later event_type event profile_id task users grown
                        (is_delivery_of event.id u) again
                        (exists_intro (is_delivery_of event.id u) table stored
                          (new_notification_lem (ids 0) u event_type event profile_id task)))
                  | inr rest ↦
                      deliver-IsDelivered later event_type event profile_id task users grown again v
                        rest
                ])
    ]

-- What was delivered is not delivered again, and nothing is written.
deliver_again :
    (ids : ℕ → ℕ) (event_type : EventType) (event : AuditLog) (profile_id : ℕ) (task : Task)
    (users : List ℕ) (db : Db)
    → IsDelivered event.id users db
    → (kept : List Notification) × (deliver ids event_type event profile_id task users db
        ≡ ok (kept, db))
unfolding deliver
deliver_again ids event_type event profile_id task [] db delivered = ([], refl)
deliver_again ids event_type event profile_id task (u ∷ users) db delivered =
    let (kept, rest) =
      deliver_again (λ k. ids (suc k)) event_type event profile_id task users db
        (λ v m. delivered v (Memᴰ.tail m)) in
    let (stored, m, fits) =
      exists_elim (is_delivery_of event.id u) db.notifications (delivered u (Memᴰ.head refl)) in
    let (existing, found) = first_complete (is_delivery_of event.id u) db.notifications m fits in
    (existing ∷ kept, rw (deliver, found, rest) refl)

-- After a delivery that succeeds, delivering the same event to the same users again, with whatever
-- ids are drawn then, succeeds and writes nothing.
pub deliver-deliver :
    (ids again : ℕ → ℕ) (event_type : EventType) (event : AuditLog) (profile_id : ℕ) (task : Task)
    (users : List ℕ) (db : Db) {created : List Notification} {after : Db}
    → deliver ids event_type event profile_id task users db ≡ ok (created, after)
    → (kept : List Notification) × (deliver again event_type event profile_id task users after
        ≡ ok (kept, after))
deliver-deliver ids again event_type event profile_id task users db {after = final} h =
    deliver_again again event_type event profile_id task users final
      (deliver-IsDelivered ids event_type event profile_id task users db h)
