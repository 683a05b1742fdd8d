-- ===== src/Store/Frames.antt =====
-- Two databases that differ in their logs at most: audit rows and notifications.
use hustly_tasker.Prelude.{List, ◌≡◌, refl, ◌∙◌}
use hustly_tasker.Store.Rows.{AuditLog, Notification}
use hustly_tasker.Store.Database.{Db}

pub record SameButLogs (db after : Db) : Type 0 where
  pub users : after.users ≡ db.users
  pub profiles : after.profiles ≡ db.profiles
  pub profile_memberships : after.profile_memberships ≡ db.profile_memberships
  pub workspaces : after.workspaces ≡ db.workspaces
  pub workspace_members : after.workspace_members ≡ db.workspace_members
  pub tasks : after.tasks ≡ db.tasks
  pub task_assignments : after.task_assignments ≡ db.task_assignments
  pub task_comments : after.task_comments ≡ db.task_comments
  pub deliverables : after.deliverables ≡ db.deliverables
  pub reviews : after.reviews ≡ db.reviews
  pub profile_invitations : after.profile_invitations ≡ db.profile_invitations
  pub account_security_tokens : after.account_security_tokens ≡ db.account_security_tokens

pub SameButLogs-refl : (db : Db) → SameButLogs db db
SameButLogs-refl db = record {
  users = refl;
  profiles = refl;
  profile_memberships = refl;
  workspaces = refl;
  workspace_members = refl;
  tasks = refl;
  task_assignments = refl;
  task_comments = refl;
  deliverables = refl;
  reviews = refl;
  profile_invitations = refl;
  account_security_tokens = refl;
}

pub SameButLogs-trans : {a b c : Db} → SameButLogs a b → SameButLogs b c → SameButLogs a c
SameButLogs-trans f g = record {
  users = g.users ∙ f.users;
  profiles = g.profiles ∙ f.profiles;
  profile_memberships = g.profile_memberships ∙ f.profile_memberships;
  workspaces = g.workspaces ∙ f.workspaces;
  workspace_members = g.workspace_members ∙ f.workspace_members;
  tasks = g.tasks ∙ f.tasks;
  task_assignments = g.task_assignments ∙ f.task_assignments;
  task_comments = g.task_comments ∙ f.task_comments;
  deliverables = g.deliverables ∙ f.deliverables;
  reviews = g.reviews ∙ f.reviews;
  profile_invitations = g.profile_invitations ∙ f.profile_invitations;
  account_security_tokens = g.account_security_tokens ∙ f.account_security_tokens;
}

pub SameButLogs-logs :
    (db : Db) (audit_logs : List AuditLog) (notifications : List Notification)
    → SameButLogs db (record db { audit_logs = audit_logs; notifications = notifications })
SameButLogs-logs db audit_logs notifications = record {
  users = refl;
  profiles = refl;
  profile_memberships = refl;
  workspaces = refl;
  workspace_members = refl;
  tasks = refl;
  task_assignments = refl;
  task_comments = refl;
  deliverables = refl;
  reviews = refl;
  profile_invitations = refl;
  account_security_tokens = refl;
}
