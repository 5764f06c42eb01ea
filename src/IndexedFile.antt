-- ===== src/IndexedFile.antt =====
-- The paths of indexed files (src/indexed-file/path.util.ts).
pub mod Filename
pub mod Scope
pub mod Contained
mod Tests
