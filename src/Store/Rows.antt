-- ===== src/Store/Rows.antt =====
-- The rows of the models, with the columns that the services read or write, and their primary keys.
-- Instants are numbers (microseconds); a period is the year, month and day of a `DateField`.
use hustly_tasker.Prelude.{
  ℕ, ◌≡◌, ◌↔◌, String, Text, Bool, true, ◌&&◌, Option, Keyed, Eq, ◌==◌, nat_eq, bool_eq, arith,
}
use hustly_tasker.Store.Choices.{
  ProfileStatus, ProfileRole, WorkspaceStatus, WorkspaceRole, TaskStatus, TaskPriority,
  DeliverableStatus, ReviewStatus, EventType,
}
use hustly_tasker.Store.Json.{Metadata}

pub record User : Type 0 where
  pub id : ℕ
  pub is_active : Bool
  pub email : Text
  pub password : Text
  pub email_verified_at : Option ℕ
  pub verified_email_normalized : Option Text

pub record Profile : Type 0 where
  pub id : ℕ
  pub name : Text
  pub status : ProfileStatus

pub record ProfileMembership : Type 0 where
  pub id : ℕ
  pub profile_id : ℕ
  pub user_id : ℕ
  pub role : ProfileRole
  pub is_active : Bool

pub record Period : Type 0 where
  pub year : ℕ
  pub month : ℕ
  pub day : ℕ

-- `profile` and `period` are null on legacy rows.
pub record Workspace : Type 0 where
  pub id : ℕ
  pub profile_id : Option ℕ
  pub owner_id : ℕ
  pub name : Text
  pub description : Option Text
  pub period : Option Period
  pub status : WorkspaceStatus

pub record WorkspaceMember : Type 0 where
  pub id : ℕ
  pub workspace_id : ℕ
  pub user_id : ℕ
  pub role : WorkspaceRole
  pub is_active : Bool

-- A `datetime`: whether it carries a time zone, whether it can be moved to UTC, and the instant.
pub record Deadline : Type 0 where
  pub is_aware : Bool
  pub in_range : Bool
  pub instant : ℕ

pub record Task : Type 0 where
  pub id : ℕ
  pub workspace_id : ℕ
  pub parent_id : Option ℕ
  pub title : Text
  pub description : Option Text
  pub status : TaskStatus
  pub priority : TaskPriority
  pub deadline : Option Deadline
  pub created_by_id : ℕ

pub record TaskAssignment : Type 0 where
  pub id : ℕ
  pub task_id : ℕ
  pub user_id : ℕ
  pub is_active : Bool
  pub assigned_at : ℕ

pub record TaskComment : Type 0 where
  pub id : ℕ
  pub task_id : ℕ
  pub user_id : ℕ
  pub content : Text
  pub created_at : ℕ
  pub edited_at : Option ℕ
  pub deleted_at : Option ℕ

pub record Deliverable : Type 0 where
  pub id : ℕ
  pub task_id : ℕ
  pub file_url : Text
  pub uploaded_by_id : ℕ
  pub revision : Option ℕ
  pub status : DeliverableStatus
  pub created_at : ℕ

pub record Review : Type 0 where
  pub id : ℕ
  pub deliverable_id : ℕ
  pub reviewer_id : ℕ
  pub status : ReviewStatus
  pub comment : Option Text

pub record AuditLog : Type 0 where
  pub id : ℕ
  pub user_id : Option ℕ
  pub action : String
  pub entity_name : String
  pub entity_id : ℕ
  pub metadata : Metadata

pub record Notification : Type 0 where
  pub id : ℕ
  pub user_id : ℕ
  pub title : String
  pub message : String
  pub is_read : Bool
  pub event_type : Option EventType
  pub profile_id : Option ℕ
  pub workspace_id : Option ℕ
  pub task_id : Option ℕ
  pub event_id : Option ℕ

instance abbrev pub user_key : Keyed User
user_key = record { key = λ row. row.id }

instance abbrev pub profile_key : Keyed Profile
profile_key = record { key = λ row. row.id }

instance abbrev pub profile_membership_key : Keyed ProfileMembership
profile_membership_key = record { key = λ row. row.id }

instance abbrev pub workspace_key : Keyed Workspace
workspace_key = record { key = λ row. row.id }

instance abbrev pub workspace_member_key : Keyed WorkspaceMember
workspace_member_key = record { key = λ row. row.id }

instance abbrev pub task_key : Keyed Task
task_key = record { key = λ row. row.id }

instance abbrev pub task_assignment_key : Keyed TaskAssignment
task_assignment_key = record { key = λ row. row.id }

instance abbrev pub task_comment_key : Keyed TaskComment
task_comment_key = record { key = λ row. row.id }

instance abbrev pub deliverable_key : Keyed Deliverable
deliverable_key = record { key = λ row. row.id }

instance abbrev pub review_key : Keyed Review
review_key = record { key = λ row. row.id }

instance abbrev pub audit_log_key : Keyed AuditLog
audit_log_key = record { key = λ row. row.id }

instance abbrev pub notification_key : Keyed Notification
notification_key = record { key = λ row. row.id }

abbrev pub period_beq : Period → Period → Bool
period_beq a b = a.year == b.year && a.month == b.month && a.day == b.day

pub period_beq_iff : (a b : Period) → (period_beq a b ≡ true) ↔ (a ≡ b)
period_beq_iff a b = ground arith

instance abbrev pub period_eq : Eq Period
period_eq = record { equals_iff = period_beq_iff; equals = period_beq }

abbrev pub deadline_beq : Deadline → Deadline → Bool
deadline_beq a b = a.is_aware == b.is_aware && a.in_range == b.in_range && a.instant == b.instant

pub deadline_beq_iff : (a b : Deadline) → (deadline_beq a b ≡ true) ↔ (a ≡ b)
deadline_beq_iff a b = ground arith

instance abbrev pub deadline_eq : Eq Deadline
deadline_eq = record { equals_iff = deadline_beq_iff; equals = deadline_beq }
