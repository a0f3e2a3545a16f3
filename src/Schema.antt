-- ===== src/Schema.antt =====
-- The tables of apps/api/src/db/schema that the money flows read and write: a record for each row,
-- a data type for each enumerated column. Amounts are whole kuruş (`numeric(14,2)` times 100),
-- percentages are hundredths of a percent, times are milliseconds, uuids are numbers.
mod Enums
mod Wallet
mod Merchants
mod Sessions
mod Ledger
mod Admin
mod ProfitShare
mod Auth
pub use Enums.*
pub use Wallet.*
unfoldable pub use Merchants.*
pub use Sessions.*
pub use Ledger.*
pub use Admin.*
pub use ProfitShare.*
pub use Auth.*
