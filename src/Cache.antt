-- ===== src/Cache.antt =====
-- cache: pages by request, their metadata in a bolt database and their bodies on disk.
pub mod Directives
pub mod Disk
pub mod Bolt
pub mod Store
pub mod Remove
pub mod Insert
pub mod Read
pub mod Cleaner
pub mod Whole
pub mod Telling
