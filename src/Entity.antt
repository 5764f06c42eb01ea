-- ===== src/Entity.antt =====
-- The entities that the resources of a library name: src/entity with the tables that refer to it,
-- and the merges of src/pending-entity.
mod Store
mod Merge
mod Named
mod Merged
mod Linked
mod United
mod Service
mod Pending
mod Confirm
mod Confirmed
mod Materialized
mod Cancelled
mod Entries
mod Retranslated
mod ConfirmTests
mod Tests
