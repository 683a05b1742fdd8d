-- ===== src/Tasks/Hierarchy.antt =====
-- The parent chains of the Tasks: what the walk of `Task.clean` establishes, and the services that
-- write a parent.
pub mod Chains
pub mod Forest
pub mod Paths
pub mod Moved
pub mod Update
