-- ===== src/Examples/Office.antt =====
-- A Profile with a Workspace, an Owner (1), an Editor (2) and five Tasks, one in each open status.
use hustly_tasker.Prelude.{
  Memᴰ, ◌≡◌, uncons, inl, inr, Bool, ℕ, ◌+◌, true, Option, none, some, [], ◌∷◌, Ref, uuid, Result,
  ok, err,
}
use hustly_tasker.Store.{
  User, Db, Request, FieldRules, ProfileStatus, ProfileMembership, ProfileRole, Workspace,
  WorkspaceStatus, WorkspaceRole, Task, TaskStatus, TaskPriority, TaskAssignment, DeliverableStatus,
  Period,
}

abbrev pub task_row : ℕ → Option ℕ → TaskStatus → Task
task_row id parent_id status = record {
  id = id;
  workspace_id = 30;
  parent_id = parent_id;
  title = 84 ∷ [];
  description = none;
  status = status;
  priority = TaskPriority.medium;
  deadline = none;
  created_by_id = 1;
}

abbrev pub assignment_row : ℕ → ℕ → TaskAssignment
assignment_row id task_id = record {
  id = id;
  task_id = task_id;
  user_id = 2;
  is_active = true;
  assigned_at = 5;
}

abbrev pub owner_membership : ProfileMembership
owner_membership = record {
  id = 20;
  profile_id = 10;
  user_id = 1;
  role = ProfileRole.owner;
  is_active = true;
}

abbrev pub editor_membership : ProfileMembership
editor_membership = record {
  id = 21;
  profile_id = 10;
  user_id = 2;
  role = ProfileRole.member;
  is_active = true;
}

abbrev pub january : Period
january = record { year = 2026; month = 1; day = 1 }

abbrev pub february : Period
february = record { year = 2026; month = 2; day = 1 }

abbrev pub office_workspace : Workspace
office_workspace = record {
  id = 30;
  profile_id = some 10;
  owner_id = 1;
  name = 87 ∷ [];
  description = none;
  period = some january;
  status = WorkspaceStatus.active;
}

abbrev pub user_row : ℕ → Bool → User
user_row id is_active = record {
  id = id;
  is_active = is_active;
  email = (97 + id) ∷ [];
  password = 112 ∷ [];
  email_verified_at = none;
  verified_email_normalized = none;
}

abbrev pub office : Db
office = record {
  users = user_row 1 true ∷ user_row 2 true ∷ [];
  profiles = record { id = 10; name = 80 ∷ []; status = ProfileStatus.active } ∷ [];
  profile_memberships = owner_membership ∷ editor_membership ∷ [];
  workspaces = office_workspace ∷ [];
  workspace_members =
      record {
        id = 40;
        workspace_id = 30;
        user_id = 2;
        role = WorkspaceRole.member;
        is_active = true;
      }
      ∷ [];
  tasks =
      task_row 50 none TaskStatus.pending
      ∷ task_row 51 (some 50) TaskStatus.assigned
      ∷ task_row 52 (some 51) TaskStatus.working
      ∷ task_row 53 none TaskStatus.review
      ∷ [];
  task_assignments = assignment_row 60 51 ∷ assignment_row 61 52 ∷ assignment_row 62 53 ∷ [];
  task_comments = [];
  deliverables =
      record {
        id = 70;
        task_id = 53;
        file_url = 85 ∷ [];
        uploaded_by_id = 2;
        revision = some 1;
        status = DeliverableStatus.submitted;
        created_at = 6;
      }
      ∷ [];
  reviews = [];
  audit_logs = [];
  notifications = [];
  profile_invitations = [];
  account_security_tokens = [];
}

-- The call of a user, with new ids from 900 on.
abbrev pub call_of : ℕ → Request
call_of actor = record { actor = actor; now = 9; new_id = λ k. k + 900; before = office }

-- Field checks that accept every row.
abbrev pub all_accepted : FieldRules
all_accepted = record {
  profile = λ _. true;
  profile_membership = λ _. true;
  workspace = λ _. true;
  workspace_member = λ _. true;
  task = λ _. true;
  task_assignment = λ _. true;
  task_comment = λ _. true;
  task_comment_but_content = λ _. true;
  deliverable = λ _. true;
  review = λ _. true;
  user = λ _. true;
  profile_invitation = λ _. true;
  account_security_token = λ _. true;
}

abbrev pub profile_ref : Ref
profile_ref = uuid 10

abbrev pub workspace_ref : Ref
workspace_ref = uuid 30

-- The database after a call; the office if it raised.
abbrev pub db_of : {A : Type 0} → Result (A × Db) → Db
db_of (ok (a, after)) = after
db_of (err e) = office

pub alone : {A : Type 0} {x y : A} → Memᴰ x (y ∷ []) → x ≡ y
alone m = elim (uncons m) [ inl e ↦ e | inr m' ↦ elim m' [ ] ]
