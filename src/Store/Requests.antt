-- ===== src/Store/Requests.antt =====
-- What a service call receives besides its arguments, and the checks of fields by the ORM.
use hustly_tasker.Prelude.{ℕ, Bool}
use hustly_tasker.Store.Rows.{
  Profile, ProfileMembership, Workspace, WorkspaceMember, Task, TaskAssignment, TaskComment,
  Deliverable, Review, User,
}
use hustly_tasker.Store.Credentials.{ProfileInvitation, AccountSecurityToken}
use hustly_tasker.Store.Database.{Db}

-- `actor.pk` of a saved user, `timezone.now()`, the UUIDs that `uuid.uuid4` draws for the new rows
-- of the call, and the database as the reads before the first row lock found it, which other
-- transactions may have changed since.
pub record Request : Type 0 where
  pub actor : ℕ
  pub now : ℕ
  pub new_id : ℕ → ℕ
  pub before : Db

-- Django's `clean_fields`, which applies the validators of the declared fields to one row.
pub record FieldRules : Type 0 where
  pub profile : Profile → Bool
  pub profile_membership : ProfileMembership → Bool
  pub workspace : Workspace → Bool
  pub workspace_member : WorkspaceMember → Bool
  pub task : Task → Bool
  pub task_assignment : TaskAssignment → Bool
  pub task_comment : TaskComment → Bool
  pub task_comment_but_content : TaskComment → Bool
  pub deliverable : Deliverable → Bool
  pub review : Review → Bool
  pub user : User → Bool
  pub profile_invitation : ProfileInvitation → Bool
  pub account_security_token : AccountSecurityToken → Bool
