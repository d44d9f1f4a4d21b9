-- ===== src/Metas.antt =====
-- Container metadata: src/core/metas.
pub mod Types
pub mod Container
pub mod Apply
pub mod Folder
pub mod Wal
pub mod Snapshot
pub mod Storage
pub mod Query
pub mod Manager
pub mod Event
