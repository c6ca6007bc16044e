-- ===== src/Cnab.antt =====
-- internal/adapters/banks/itau/cnab: CNAB 240 files for Itaú.
pub mod Layout
pub mod Fields
pub mod Encoder
pub mod Occurrences
pub mod Decoder
mod Tests
