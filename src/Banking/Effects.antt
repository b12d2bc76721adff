-- ===== src/Banking/Effects.antt =====
-- What an operation that returns has done to the wallets.
pub mod Changes
pub mod Applies
pub mod Cash
pub mod Credit
pub mod Tiles
pub mod Lawful
pub mod Exchange
pub mod Insolvency
pub mod Table
pub mod Flow
pub mod Conservation
pub mod Opposite
pub mod Estate
pub mod Barter
pub mod Foresight
pub mod Returns
pub mod Borrows
pub mod Offer
pub mod Restored
