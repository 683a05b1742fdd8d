-- ===== src/Store/Database.antt =====
-- One database value: a table for each model.
use hustly_tasker.Prelude.{List}
use hustly_tasker.Store.Rows.{
  User, Profile, ProfileMembership, Workspace, WorkspaceMember, Task, TaskAssignment, TaskComment,
  Deliverable, Review, AuditLog, Notification,
}
use hustly_tasker.Store.Credentials.{ProfileInvitation, AccountSecurityToken}

pub record Db : Type 0 where
  pub users : List User
  pub profiles : List Profile
  pub profile_memberships : List ProfileMembership
  pub workspaces : List Workspace
  pub workspace_members : List WorkspaceMember
  pub tasks : List Task
  pub task_assignments : List TaskAssignment
  pub task_comments : List TaskComment
  pub deliverables : List Deliverable
  pub reviews : List Review
  pub audit_logs : List AuditLog
  pub notifications : List Notification
  pub profile_invitations : List ProfileInvitation
  pub account_security_tokens : List AccountSecurityToken
