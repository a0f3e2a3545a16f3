-- ===== src/Store.antt =====
-- The database and what a transaction on it is: apps/api/src/db/client.ts (`tx`), the errors of
-- apps/api/src/lib/errors.ts, and the single statements that the services issue.
mod Monad
mod Tables
unfoldable pub use Monad.*
unfoldable pub use Tables.*
pub mod Rules
