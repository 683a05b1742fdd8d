-- ===== src/Workspace/Audit.antt =====
-- backend/apps/workspace/services.py: the three `_write_..._audit` helpers.
use hustly_tasker.Prelude.{◌>>=◌, Result, insert, ℕ, String, Bool, some, ok}
use hustly_tasker.Store.{
  ProfileStatus, ProfileRole, WorkspaceStatus, WorkspaceRole, Db, id_or_null, Value, id_text,
  string, flag, object, Request, user_key, profile_key, profile_membership_key, workspace_key,
  workspace_member_key, task_key, task_assignment_key, task_comment_key, deliverable_key,
  review_key, audit_log_key, notification_key, Profile, ProfileMembership, Workspace,
  WorkspaceMember, AuditLog, entry, nil,
}

unfoldable pub profile_role_text : ProfileRole → Value
profile_role_text ProfileRole.owner = string "OWNER"
profile_role_text ProfileRole.admin = string "ADMIN"
profile_role_text ProfileRole.member = string "MEMBER"

unfoldable pub workspace_role_text : WorkspaceRole → Value
workspace_role_text WorkspaceRole.owner = string "OWNER"
workspace_role_text WorkspaceRole.admin = string "ADMIN"
workspace_role_text WorkspaceRole.member = string "MEMBER"
workspace_role_text WorkspaceRole.viewer = string "VIEWER"

unfoldable pub profile_status_text : ProfileStatus → Value
profile_status_text ProfileStatus.active = string "ACTIVE"
profile_status_text ProfileStatus.archived = string "ARCHIVED"

unfoldable pub workspace_status_text : WorkspaceStatus → Value
workspace_status_text WorkspaceStatus.active = string "ACTIVE"
workspace_status_text WorkspaceStatus.archived = string "ARCHIVED"

-- `{"role": ..., "is_active": ...}`
unfoldable pub role_state : Value → Bool → Value
role_state role is_active = object (entry "role" role (entry "is_active" (flag is_active) nil))

-- `{"status": ...}`
unfoldable pub status_state : Value → Value
status_state status = object (entry "status" status nil)

unfoldable pub add_audit_log : AuditLog → Db → Result Db
add_audit_log event db = do
  audit_logs ← insert event db.audit_logs
  ok (record db { audit_logs = audit_logs })

-- `_write_membership_audit` for a Profile membership.
unfoldable pub write_profile_membership_audit :
    Request → ℕ → ProfileMembership → String → (before after : Value) → Db → Result Db
unfolding add_audit_log
write_profile_membership_audit request id membership action before after = add_audit_log record {
  id = id;
  user_id = some request.actor;
  action = action;
  entity_name = "ProfileMembership";
  entity_id = membership.id;
  metadata = entry "profile_id" (id_text membership.profile_id) (
      entry "target_user_id" (id_text membership.user_id)
        (entry "before" before (entry "after" after nil)));
}

-- `_write_membership_audit` for a Workspace membership.
unfoldable pub write_workspace_membership_audit :
    Request → ℕ → Workspace → WorkspaceMember → String → (before after : Value) → Db → Result Db
unfolding add_audit_log
write_workspace_membership_audit request id workspace member action before after =
    add_audit_log record {
      id = id;
      user_id = some request.actor;
      action = action;
      entity_name = "WorkspaceMember";
      entity_id = member.id;
      metadata = entry "profile_id" (id_or_null workspace.profile_id) (
          entry "target_user_id" (id_text member.user_id) (
            entry "before" before
              (entry "after" after (entry "workspace_id" (id_text member.workspace_id) nil))));
    }

unfoldable pub write_workspace_audit :
    Request → ℕ → Workspace → String → (before after : Value) → Db → Result Db
unfolding add_audit_log
write_workspace_audit request id workspace action before after = add_audit_log record {
  id = id;
  user_id = some request.actor;
  action = action;
  entity_name = "Workspace";
  entity_id = workspace.id;
  metadata =
      entry "profile_id" (id_or_null workspace.profile_id)
        (entry "before" before (entry "after" after nil));
}

unfoldable pub write_profile_audit :
    Request → ℕ → Profile → String → (before after : Value) → Db → Result Db
unfolding add_audit_log
write_profile_audit request id profile action before after = add_audit_log record {
  id = id;
  user_id = some request.actor;
  action = action;
  entity_name = "Profile";
  entity_id = profile.id;
  metadata =
      entry "profile_id" (id_text profile.id) (entry "before" before (entry "after" after nil));
}
