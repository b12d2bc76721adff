-- ===== src/Service.antt =====
-- The banking service of the Worker: worker/services/banking-service.ts.
mod Reads
mod LoanView
mod Requests
mod Checks
mod Lookups
mod Run
mod Offers
mod Commit
mod Answers
mod Trades
mod Failures
pub mod Conservation
pub mod Settling
pub mod Replay
pub mod Asked
pub mod Runs
pub mod Commands
pub mod Repeats
pub mod Reserves
pub mod Finality
unfoldable pub use Reads.*
unfoldable pub use LoanView.*
unfoldable pub use Requests.*
unfoldable pub use Checks.*
unfoldable pub use Lookups.*
unfoldable pub use Run.*
unfoldable pub use Offers.*
unfoldable pub use Commit.*
unfoldable pub use Answers.*
unfoldable pub use Trades.*
unfoldable pub use Failures.*
