-- ===== src/Invitations.antt =====
-- Invitations to a Profile.
-- backend/apps/workspace/{models,invitation_services,invitation_delivery,invitation_identity}.py
mod Records
mod Managers
mod Issuing
mod Managing
mod Tokens
mod Answering
mod Delivery
pub mod Visible
pub mod Steps
pub mod Ledger
pub mod Kept
pub mod Effects
pub mod CallSteps
pub mod Locking
pub mod Accepting
pub mod Answers
mod Fresh
pub mod Limits
pub mod History
pub mod SingleUse
pub mod Joining
unfoldable pub use Records.*
unfoldable pub use Managers.*
unfoldable pub use Issuing.*
unfoldable pub use Managing.*
unfoldable pub use Tokens.*
unfoldable pub use Answering.*
unfoldable pub use Delivery.*
