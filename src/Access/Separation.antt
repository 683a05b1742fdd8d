-- ===== src/Access/Separation.antt =====
-- Executing Tasks and managing them exclude each other.
use hustly_tasker.Access.Capabilities.{
  can_edit_workspace, can_manage_workspace_tasks, can_execute_workspace_tasks,
  can_review_workspace_deliverables, can_manage_workspace_members, can_mutate_workspace_members,
  can_manage_workspace_lifecycle,
}
use hustly_tasker.Access.Contexts.{WorkspaceAccessContext}
use hustly_tasker.Prelude.{◌≡◌, true, false, arith}
use hustly_tasker.Store.{Db}

-- A context that may execute Tasks may not manage or review them, edit the Workspace, change its
-- members or its lifecycle.
pub manage-excludes_execute :
    (db : Db) (context : WorkspaceAccessContext)
    → can_execute_workspace_tasks db context ≡ true
    → (can_manage_workspace_tasks db context ≡ false)
      × (can_review_workspace_deliverables db context ≡ false)
      × (can_edit_workspace db context ≡ false)
      × (can_mutate_workspace_members db context ≡ false)
      × (can_manage_workspace_lifecycle db context ≡ false)
unfolding can_manage_workspace_tasks can_execute_workspace_tasks can_review_workspace_deliverables
    can_edit_workspace can_mutate_workspace_members can_manage_workspace_members
    can_manage_workspace_lifecycle
manage-excludes_execute db context h = ground arith
