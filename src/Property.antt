-- ===== src/Property.antt =====
-- The property rules: shared/domain/property.ts.
pub mod Lookup
pub mod Changes
pub mod Undo
pub mod Levels
pub mod Blockers
pub mod Plan
pub mod Build
pub mod Rent
