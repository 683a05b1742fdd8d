-- ===== src/Workspace/Suspension.antt =====
-- A suspended account passes no tenant boundary.
use hustly_tasker.Access.{user_is_active, is_membership_of}
use hustly_tasker.Prelude.{Ref, ◌≡◌, ◌≢◌, true, false, arith, ok}
use hustly_tasker.Store.{Db, Request}
use hustly_tasker.Workspace.Locked.{lock_workspace_mutation_context-IsLocked, IsLocked}
use hustly_tasker.Workspace.Scope.{lock_workspace_mutation_context, LockedScope}

active_actor :
    (request : Request) (profile_id workspace_id : Ref) (db : Db) (scope : LockedScope)
    → IsLocked db request.actor scope
    → user_is_active db request.actor ≡ true
unfolding is_membership_of
active_actor request profile_id workspace_id db scope locked =
    let fits = locked.membership_fits in
    let who = locked.acts in
    let same : scope.actor_membership.user_id ≡ request.actor = ground arith in
    let own : user_is_active db scope.actor_membership.user_id ≡ true = ground arith in
    rw same at own

-- A user whose account is not active in the locked database passes no tenant boundary, even if the
-- reads before the locks still saw the account active.
pub lock_workspace_mutation_context-refuses :
    (request : Request) (profile_id workspace_id : Ref) (db : Db) (scope : LockedScope)
    → user_is_active db request.actor ≡ false
    → lock_workspace_mutation_context request profile_id workspace_id db ≢ ok scope
lock_workspace_mutation_context-refuses request profile_id workspace_id db scope gone h = cc (
    active_actor request profile_id workspace_id db scope
      (lock_workspace_mutation_context-IsLocked request profile_id workspace_id db h))
