-- ===== src/Offline.antt =====
-- Work without a connection: the synchronisation of changes and the bundles of src/offline.
mod Sync
mod Bundles
mod Bundled
mod Kept
mod Repeated
mod Changes
mod Told
mod Tests
