-- ===== src/Store.antt =====
-- The tables that the services read and write, the requests, and the checks of single fields.
-- backend/apps/{accounts,workspace,tasks,reviews,notifications,audit}/models.py
mod Choices
mod Json
mod Rows
mod Credentials
mod Database
mod Requests
mod Environment
mod Frames
pub use Choices.*
unfoldable pub use Json.*
pub use Rows.*
pub use Credentials.*
pub use Database.*
pub use Requests.*
pub use Environment.*
pub use Frames.*
