-- ===== src/Tasks/Discussion.antt =====
-- Any number of comment calls, by any users and in any order.
use hustly_tasker.Tasks.Threads.{
  unchanged, posted, edited, deleted, create_comment-Discusses, update_comment-Discusses,
  delete_comment-Discusses, Discusses,
}
use hustly_tasker.Prelude.{
  ok, err, Result-cases, Result, Text, save, Ref, ◌==◌, nat_eq, string_eq, bool_eq, option_eq,
  list_eq, ==→≡, Bool-cases, is_some, UniqueBy, mem-append_left, mem-update_where_miss, insert_lem,
  insert-UniqueBy, save-UniqueBy, ℕ, ◌≡◌, refl, sym, ap, subst, inl, inr, true, Option, none, List,
  [], ◌∷◌, Memᴰ,
}
use hustly_tasker.Store.{
  profile_status_eq, profile_role_eq, workspace_status_eq, workspace_role_eq, task_status_eq,
  task_priority_eq, deliverable_status_eq, review_status_eq, event_type_eq, invitation_role_eq,
  invitation_status_eq, delivery_status_eq, token_purpose_eq, token_status_eq,
  profile_invitation_key, account_security_token_key, Db, Request, FieldRules, user_key,
  profile_key, profile_membership_key, workspace_key, workspace_member_key, task_key,
  task_assignment_key, task_comment_key, deliverable_key, review_key, audit_log_key,
  notification_key, period_eq, deadline_eq, TaskComment,
}
use hustly_tasker.Tasks.Discussing.{create_comment, update_comment, delete_comment}

-- The calls with their arguments.
pub data CommentCall : Type 0 where
  create : Request → (profile_id workspace_id task_id : Ref) → Option Text → CommentCall
  update : Request → (profile_id workspace_id task_id comment_id : Ref) → Option Text → CommentCall
  delete : Request → (profile_id workspace_id task_id comment_id : Ref) → CommentCall

unfoldable pub caller : CommentCall → ℕ
caller (create request _ _ _ _) = request.actor
caller (update request _ _ _ _ _) = request.actor
caller (delete request _ _ _ _) = request.actor

unfoldable pub perform_comment : FieldRules → CommentCall → Db → Result (TaskComment × Db)
perform_comment rules (create request profile_id workspace_id task_id value) db =
    create_comment rules request profile_id workspace_id task_id value db
perform_comment rules (update request profile_id workspace_id task_id comment_id value) db =
    update_comment rules request profile_id workspace_id task_id comment_id value db
perform_comment rules (delete request profile_id workspace_id task_id comment_id) db =
    delete_comment rules request profile_id workspace_id task_id comment_id db

-- The database after a call: the old one if it raised.
unfoldable pub after_comment : Result (TaskComment × Db) → Db → Db
after_comment (err e) db = db
after_comment (ok (comment, after)) db = after

unfoldable pub discussion : FieldRules → List CommentCall → Db → Db
unfolding perform_comment after_comment
discussion rules [] db = db
discussion rules (call ∷ calls) db =
    discussion rules calls (after_comment (perform_comment rules call db) db)

-- A comment call that succeeds leaves the comments as they are, adds one by its caller, writes the
-- text of one stored comment by its caller that is not deleted, or marks one stored comment that is
-- not deleted.
pub perform_comment-Discusses :
    (rules : FieldRules) (call : CommentCall) (db : Db) (comment : TaskComment) (after : Db)
    → perform_comment rules call db ≡ ok (comment, after)
    → Discusses (caller call) db.task_comments after.task_comments
unfolding perform_comment caller
perform_comment-Discusses rules (create request profile_id workspace_id task_id value) db comment
      after h =
    create_comment-Discusses rules request profile_id workspace_id task_id value db h
perform_comment-Discusses rules (update request profile_id workspace_id task_id comment_id value) db
      comment after h =
    update_comment-Discusses rules request profile_id workspace_id task_id comment_id value db h
perform_comment-Discusses rules (delete request profile_id workspace_id task_id comment_id) db
      comment after h =
    delete_comment-Discusses rules request profile_id workspace_id task_id comment_id db h

save_other :
    (f : TaskComment → TaskComment) (c x : TaskComment) (table : List TaskComment)
    → UniqueBy task_comment_key.key table
    → Memᴰ c table
    → c.deleted_at ≡ none
    → is_some x.deleted_at ≡ true
    → Memᴰ x table
    → Memᴰ x (save c.id f table)
save_other f c x table unique stored standing gone m = elim (Bool-cases (x.id == c.id)) [
  | inl same ↦
      absurd (cc (ap (λ r. is_some r.deleted_at) (unique x c m stored (==→≡ x.id c.id same))))
  | inr other ↦ mem-update_where_miss (λ (r : TaskComment). r.id == c.id) f table m other
]

Discusses-keeps :
    (actor : ℕ) (x : TaskComment) {now later : List TaskComment}
    → UniqueBy task_comment_key.key now
    → is_some x.deleted_at ≡ true
    → Discusses actor now later
    → Memᴰ x now
    → Memᴰ x later
Discusses-keeps actor x unique gone unchanged m = m
Discusses-keeps actor x {now} unique gone (posted c _ _ put) m =
    subst (Memᴰ x) (sym (insert_lem c now put).0) (mem-append_left now (c ∷ []) m)
Discusses-keeps actor x {now} unique gone (edited c body at stored _ standing) m =
    save_other _ c x now unique stored standing gone m
Discusses-keeps actor x {now} unique gone (deleted c at stored standing) m =
    save_other _ c x now unique stored standing gone m

Discusses-UniqueBy :
    (actor : ℕ) {now later : List TaskComment}
    → UniqueBy task_comment_key.key now
    → Discusses actor now later
    → UniqueBy task_comment_key.key later
Discusses-UniqueBy actor unique unchanged = unique
Discusses-UniqueBy actor {now} unique (posted c _ _ put) = insert-UniqueBy c now put unique
Discusses-UniqueBy actor {now} unique (edited c _ _ _ _ _) =
    save-UniqueBy c.id _ now (λ _. refl) unique
Discusses-UniqueBy actor {now} unique (deleted c _ _ _) =
    save-UniqueBy c.id _ now (λ _. refl) unique

-- If comment ids are unique, a comment that is deleted stays exactly as it is, whatever comment calls
-- follow.
pub discussion-keeps :
    (rules : FieldRules) (calls : List CommentCall) (db : Db) (x : TaskComment)
    → UniqueBy task_comment_key.key db.task_comments
    → is_some x.deleted_at ≡ true
    → Memᴰ x db.task_comments
    → Memᴰ x (discussion rules calls db).task_comments
unfolding discussion after_comment
discussion-keeps rules [] db x unique gone m = m
discussion-keeps rules (call ∷ calls) db x unique gone m =
    let later : Result (TaskComment × Db) → Type 0 =
      λ r. Memᴰ x (discussion rules calls (after_comment r db)).task_comments in
    elim (Result-cases (perform_comment rules call db)) [
      | inl (e, failed) ↦ subst later (sym failed) (discussion-keeps rules calls db x unique gone m)
      | inr ((comment, after), done) ↦
          let step = perform_comment-Discusses rules call db comment after done in
          subst later (sym done) (
            discussion-keeps rules calls after x (Discusses-UniqueBy (caller call) unique step) gone
              (Discusses-keeps (caller call) x unique gone step m))
    ]
