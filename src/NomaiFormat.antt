-- ===== src/NomaiFormat.antt =====
-- crates/core/src/nomai_format.rs.
pub mod Model
pub mod Values
pub mod Parse
pub mod Document
pub mod Escaping
pub mod TagList
pub mod Maps
pub mod Attributes
pub mod BlockHeader
pub mod OpenBlock
pub mod Body
pub mod Blocks
pub mod HeaderLine
pub mod Written
pub mod Documents
pub mod HeaderLines
pub mod DocLines
pub mod RoundTrip
mod Tests
