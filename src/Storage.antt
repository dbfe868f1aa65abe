-- ===== src/Storage.antt =====
-- The storage format package: compiler/storagefmt/format.go.
pub mod Slot
pub mod Recovery
pub mod Writer
pub mod FreeList
pub mod Regions
pub mod Superblock
pub mod Blob
pub mod Directory
pub mod Packing
pub mod Streams
