-- ===== src/Store/Choices.antt =====
-- The `TextChoices` classes of the models, with Python's `==` on their members.
use hustly_tasker.Prelude.{ℕ, ◌≡◌, ◌↔◌, Bool, true, Eq, nat_eq, arith}

pub data ProfileStatus : Type 0 where
  active archived : ProfileStatus

abbrev pub profile_status_code : ProfileStatus → ℕ
profile_status_code ProfileStatus.active = 0
profile_status_code ProfileStatus.archived = 1

abbrev pub profile_status_beq : ProfileStatus → ProfileStatus → Bool
profile_status_beq a b = nat_eq.equals (profile_status_code a) (profile_status_code b)

pub profile_status_beq_iff : (a b : ProfileStatus) → (profile_status_beq a b ≡ true) ↔ (a ≡ b)
profile_status_beq_iff a b = ground arith

instance abbrev pub profile_status_eq : Eq ProfileStatus
profile_status_eq = record { equals_iff = profile_status_beq_iff; equals = profile_status_beq }

pub data ProfileRole : Type 0 where
  owner admin member : ProfileRole

abbrev pub profile_role_code : ProfileRole → ℕ
profile_role_code ProfileRole.owner = 0
profile_role_code ProfileRole.admin = 1
profile_role_code ProfileRole.member = 2

abbrev pub profile_role_beq : ProfileRole → ProfileRole → Bool
profile_role_beq a b = nat_eq.equals (profile_role_code a) (profile_role_code b)

pub profile_role_beq_iff : (a b : ProfileRole) → (profile_role_beq a b ≡ true) ↔ (a ≡ b)
profile_role_beq_iff a b = ground arith

instance abbrev pub profile_role_eq : Eq ProfileRole
profile_role_eq = record { equals_iff = profile_role_beq_iff; equals = profile_role_beq }

pub data WorkspaceStatus : Type 0 where
  active archived : WorkspaceStatus

abbrev pub workspace_status_code : WorkspaceStatus → ℕ
workspace_status_code WorkspaceStatus.active = 0
workspace_status_code WorkspaceStatus.archived = 1

abbrev pub workspace_status_beq : WorkspaceStatus → WorkspaceStatus → Bool
workspace_status_beq a b = nat_eq.equals (workspace_status_code a) (workspace_status_code b)

pub workspace_status_beq_iff : (a b : WorkspaceStatus) → (workspace_status_beq a b ≡ true) ↔ (a ≡ b)
workspace_status_beq_iff a b = ground arith

instance abbrev pub workspace_status_eq : Eq WorkspaceStatus
workspace_status_eq = record {
  equals_iff = workspace_status_beq_iff;
  equals = workspace_status_beq;
}

pub data WorkspaceRole : Type 0 where
  owner admin member viewer : WorkspaceRole

abbrev pub workspace_role_code : WorkspaceRole → ℕ
workspace_role_code WorkspaceRole.owner = 0
workspace_role_code WorkspaceRole.admin = 1
workspace_role_code WorkspaceRole.member = 2
workspace_role_code WorkspaceRole.viewer = 3

abbrev pub workspace_role_beq : WorkspaceRole → WorkspaceRole → Bool
workspace_role_beq a b = nat_eq.equals (workspace_role_code a) (workspace_role_code b)

pub workspace_role_beq_iff : (a b : WorkspaceRole) → (workspace_role_beq a b ≡ true) ↔ (a ≡ b)
workspace_role_beq_iff a b = ground arith

instance abbrev pub workspace_role_eq : Eq WorkspaceRole
workspace_role_eq = record { equals_iff = workspace_role_beq_iff; equals = workspace_role_beq }

pub data TaskStatus : Type 0 where
  pending assigned working review completed cancelled : TaskStatus

abbrev pub task_status_code : TaskStatus → ℕ
task_status_code TaskStatus.pending = 0
task_status_code TaskStatus.assigned = 1
task_status_code TaskStatus.working = 2
task_status_code TaskStatus.review = 3
task_status_code TaskStatus.completed = 4
task_status_code TaskStatus.cancelled = 5

abbrev pub task_status_beq : TaskStatus → TaskStatus → Bool
task_status_beq a b = nat_eq.equals (task_status_code a) (task_status_code b)

pub task_status_beq_iff : (a b : TaskStatus) → (task_status_beq a b ≡ true) ↔ (a ≡ b)
task_status_beq_iff a b = ground arith

instance abbrev pub task_status_eq : Eq TaskStatus
task_status_eq = record { equals_iff = task_status_beq_iff; equals = task_status_beq }

pub data TaskPriority : Type 0 where
  low medium high urgent : TaskPriority

abbrev pub task_priority_code : TaskPriority → ℕ
task_priority_code TaskPriority.low = 0
task_priority_code TaskPriority.medium = 1
task_priority_code TaskPriority.high = 2
task_priority_code TaskPriority.urgent = 3

abbrev pub task_priority_beq : TaskPriority → TaskPriority → Bool
task_priority_beq a b = nat_eq.equals (task_priority_code a) (task_priority_code b)

pub task_priority_beq_iff : (a b : TaskPriority) → (task_priority_beq a b ≡ true) ↔ (a ≡ b)
task_priority_beq_iff a b = ground arith

instance abbrev pub task_priority_eq : Eq TaskPriority
task_priority_eq = record { equals_iff = task_priority_beq_iff; equals = task_priority_beq }

pub data DeliverableStatus : Type 0 where
  pending submitted approved rejected : DeliverableStatus

abbrev pub deliverable_status_code : DeliverableStatus → ℕ
deliverable_status_code DeliverableStatus.pending = 0
deliverable_status_code DeliverableStatus.submitted = 1
deliverable_status_code DeliverableStatus.approved = 2
deliverable_status_code DeliverableStatus.rejected = 3

abbrev pub deliverable_status_beq : DeliverableStatus → DeliverableStatus → Bool
deliverable_status_beq a b = nat_eq.equals (deliverable_status_code a) (deliverable_status_code b)

pub deliverable_status_beq_iff :
    (a b : DeliverableStatus) → (deliverable_status_beq a b ≡ true) ↔ (a ≡ b)
deliverable_status_beq_iff a b = ground arith

instance abbrev pub deliverable_status_eq : Eq DeliverableStatus
deliverable_status_eq = record {
  equals_iff = deliverable_status_beq_iff;
  equals = deliverable_status_beq;
}

pub data ReviewStatus : Type 0 where
  pending approved request_change : ReviewStatus

abbrev pub review_status_code : ReviewStatus → ℕ
review_status_code ReviewStatus.pending = 0
review_status_code ReviewStatus.approved = 1
review_status_code ReviewStatus.request_change = 2

abbrev pub review_status_beq : ReviewStatus → ReviewStatus → Bool
review_status_beq a b = nat_eq.equals (review_status_code a) (review_status_code b)

pub review_status_beq_iff : (a b : ReviewStatus) → (review_status_beq a b ≡ true) ↔ (a ≡ b)
review_status_beq_iff a b = ground arith

instance abbrev pub review_status_eq : Eq ReviewStatus
review_status_eq = record { equals_iff = review_status_beq_iff; equals = review_status_beq }

pub data EventType : Type 0 where
  task_assigned review_submitted review_approved review_changes_requested task_commented : EventType

abbrev pub event_type_code : EventType → ℕ
event_type_code EventType.task_assigned = 0
event_type_code EventType.review_submitted = 1
event_type_code EventType.review_approved = 2
event_type_code EventType.review_changes_requested = 3
event_type_code EventType.task_commented = 4

abbrev pub event_type_beq : EventType → EventType → Bool
event_type_beq a b = nat_eq.equals (event_type_code a) (event_type_code b)

pub event_type_beq_iff : (a b : EventType) → (event_type_beq a b ≡ true) ↔ (a ≡ b)
event_type_beq_iff a b = ground arith

instance abbrev pub event_type_eq : Eq EventType
event_type_eq = record { equals_iff = event_type_beq_iff; equals = event_type_beq }
