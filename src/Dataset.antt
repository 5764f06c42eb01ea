-- ===== src/Dataset.antt =====
-- Datasets: tables of records with a schema (src/dataset).
mod Types
mod Validation
mod Conforms
mod Cleaning
mod Cleaned
mod Store
mod Records
mod Source
mod Relations
mod Linked
mod Edited
mod Sourced
mod SchemaChange
mod Safe
pub mod Csv
mod Sample
mod Tests
