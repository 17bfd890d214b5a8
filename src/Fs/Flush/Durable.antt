-- ===== src/Fs/Flush/Durable.antt =====
-- `flush` of a new version of an inode in src/base/SimpleFlashFsBase.h: what stands in the memory
-- behind it.
use simpleflashfs.Fs.Types.{Fs}
