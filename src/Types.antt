-- ===== src/Types.antt =====
-- The data of a game: shared/types/monopoly.ts and shared/board/types.ts. Identifiers (of games,
-- players, tiles, transactions, mortgages, loans, auctions) are strings that the code only compares
-- by `===`, so they are numbers here. Amounts and balances are whole numbers of either sign. Fields
-- that the rules never read (names, colours, timestamps) are left out.
mod Board
mod Tables
mod Registry
mod Credit
mod Ledger
pub use Board.*
pub use Tables.*
pub use Registry.*
pub use Credit.*
pub use Ledger.*
