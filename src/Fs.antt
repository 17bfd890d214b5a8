-- ===== src/Fs.antt =====
-- src/base/SimpleFlashFsBase.h: the filesystem.
pub mod Types
pub mod Memory
pub mod Page
pub mod Inode
pub mod Header
pub mod Samples
pub mod Alloc
pub mod Read
pub mod Action
pub mod Store
pub mod Write
pub mod Flush
pub mod Versions
pub mod Handle
pub mod Listing
pub mod NoDel
pub mod TwoPages
pub mod Dynamic
