-- ===== src/Accounts.antt =====
-- Accounts: identity by email, and the single-use tokens that prove or reset it.
-- backend/apps/accounts/{models,identity,security_services,email_delivery}.py
mod Identity
mod Records
mod Saving
mod Issuing
mod Requesting
mod Confirming
mod Delivery
pub mod Steps
pub mod Used
pub mod CallSteps
pub mod ConfirmSteps
pub mod History
pub mod Stored
pub mod Ends
pub mod Resetting
pub mod Once
unfoldable pub use Identity.*
unfoldable pub use Records.*
unfoldable pub use Saving.*
unfoldable pub use Issuing.*
unfoldable pub use Requesting.*
unfoldable pub use Confirming.*
unfoldable pub use Delivery.*
