-- ===== src/Tax.antt =====
-- The taxes of src/tax.rs: tables, realized positions, and the rules of the countries.
pub mod Brackets
pub mod Positions
pub mod Netting
pub mod Fifo
pub mod ShareLots
pub mod ShareMatching
pub mod Brazil
