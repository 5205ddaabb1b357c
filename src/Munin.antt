-- ===== src/Munin.antt =====
-- kernel/munin.cpp: the file system that lives in a fixed region of memory. `Store` has the inode table,
-- the block allocator and the block map of an inode; `Dir` the directories, `Path` the path walk and
-- what is built on it, `File` the file data, `Disk` the image on disk. `Store/…`, `File/…`,
-- `Path/…` and `Disk/…` hold the theorems.
pub mod Store
pub mod File
pub mod Dir
pub mod Path
pub mod Disk
