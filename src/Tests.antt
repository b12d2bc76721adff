-- ===== src/Tests.antt =====
-- The theorems at concrete games.
mod Samples
mod Wallets
mod Previews
mod Undoing
mod Assets
mod Rules
mod Desk
mod Writes
mod Estates
