-- ===== src/Tasks.antt =====
-- Tasks: the hierarchy of backend/apps/tasks/models.py and the services of
-- backend/apps/tasks/services.py.
mod Clean
mod Saves
mod Planning
mod Assigning
mod Delivering
mod Deciding
mod Visible
mod Discussing
mod Effects
pub mod Transitions
pub mod Hierarchy
pub mod Holders
pub mod Reviewing
pub mod Revisions
pub mod Threads
pub mod Discussion
unfoldable pub use Clean.*
unfoldable pub use Saves.*
unfoldable pub use Planning.*
unfoldable pub use Assigning.*
unfoldable pub use Delivering.*
unfoldable pub use Deciding.*
unfoldable pub use Visible.*
unfoldable pub use Discussing.*
