-- ===== src/Workspace/Logged.antt =====
-- An audit row changes nothing else.
use hustly_tasker.Prelude.{ok, >>=-elim, ok-injective, insert, ◌≡◌, subst, ℕ, String}
use hustly_tasker.Store.{
  profile_invitation_key, account_security_token_key, Db, SameButLogs-logs, SameButLogs, user_key,
  profile_key, profile_membership_key, workspace_key, workspace_member_key, task_key,
  task_assignment_key, task_comment_key, deliverable_key, review_key, audit_log_key,
  notification_key, AuditLog, Value, Request, Profile,
}
use hustly_tasker.Workspace.Audit.{add_audit_log, write_profile_audit}

pub add_audit_log-SameButLogs :
    (event : AuditLog) (db : Db) {after : Db}
    → add_audit_log event db ≡ ok after
    → SameButLogs db after
unfolding add_audit_log
add_audit_log-SameButLogs event db h = >>=-elim (insert event db.audit_logs) _ h λ table _ h₁.
    subst (SameButLogs db) (ok-injective h₁) (SameButLogs-logs db table db.notifications)

pub write_profile_audit-SameButLogs :
    (request : Request) (id : ℕ) (profile : Profile) (action : String) (was is : Value) (db : Db)
    {after : Db}
    → write_profile_audit request id profile action was is db ≡ ok after
    → SameButLogs db after
unfolding write_profile_audit
write_profile_audit-SameButLogs request id profile action was is db h =
    add_audit_log-SameButLogs _ db h
