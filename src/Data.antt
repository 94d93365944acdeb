-- ===== src/Data.antt =====
-- Text, machine words, ordered sets, maps and sorting, as the standard library provides them.
pub mod Decimal
pub mod Maps
pub mod Numerals
pub mod Sort
pub mod Text
pub mod Words
