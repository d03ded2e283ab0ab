-- ===== src/Media.antt =====
-- src/media: the search in the media library.
pub mod Index
pub mod Docs
pub mod Sync
pub mod Run
