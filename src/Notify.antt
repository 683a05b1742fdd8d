-- ===== src/Notify.antt =====
-- Notifications: backend/apps/notifications/{access,content,services}.py.
mod Readers
mod Audiences
mod Emit
mod Reading
mod Reached
pub mod Delivery
pub mod Emitted
pub mod Replay
pub mod Marked
unfoldable pub use Readers.*
unfoldable pub use Audiences.*
unfoldable pub use Emit.*
unfoldable pub use Reading.*
