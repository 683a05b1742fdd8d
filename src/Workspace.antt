-- ===== src/Workspace.antt =====
-- Profiles, Workspaces and their members: backend/apps/workspace/services.py and the model methods
-- of backend/apps/workspace/models.py.
mod Scope
mod Clean
mod Audit
mod Profiles
mod Lifecycle
mod Members
pub mod Logged
pub mod Locked
pub mod Owners
pub mod Suspension
pub mod Ordinary
pub mod Ceiling
pub mod Joining
pub mod Periods
pub mod RoundTrip
unfoldable pub use Scope.*
unfoldable pub use Clean.*
unfoldable pub use Audit.*
unfoldable pub use Profiles.*
unfoldable pub use Lifecycle.*
unfoldable pub use Members.*
