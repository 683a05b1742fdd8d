-- ===== src/Access.antt =====
-- Tenant access: backend/apps/workspace/access.py.
mod Contexts
mod Resolve
mod Capabilities
mod Roster
pub mod Current
pub mod Separation
unfoldable pub use Contexts.*
unfoldable pub use Resolve.*
unfoldable pub use Capabilities.*
unfoldable pub use Roster.*
