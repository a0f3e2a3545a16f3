-- ===== src/Sessions.antt =====
-- apps/api/src/auth/sessions.ts, and what apps/api/src/services/auth.service.ts does with refresh
-- tokens, passwords, logins and MFA.
mod Tokens
mod Passwords
mod Login
mod Mfa
mod Removal
unfoldable pub use Tokens.*
unfoldable pub use Passwords.*
unfoldable pub use Login.*
unfoldable pub use Mfa.*
unfoldable pub use Removal.*
pub mod Rotation
pub mod Ended
pub mod Lockout
pub mod Codes
pub mod StepUp
