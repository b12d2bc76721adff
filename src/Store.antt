-- ===== src/Store.antt =====
-- The database of the Worker: worker/repositories.
mod Tables
mod Writes
mod Records
mod Closing
mod Insolvency
mod Persist
mod Pending
pub mod Wallets
pub mod Written
pub mod Deeds
pub mod Settled
pub mod Once
pub mod Closed
unfoldable pub use Tables.*
unfoldable pub use Writes.*
unfoldable pub use Records.*
unfoldable pub use Closing.*
unfoldable pub use Insolvency.*
unfoldable pub use Persist.*
unfoldable pub use Pending.*
