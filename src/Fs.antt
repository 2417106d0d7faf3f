-- ===== src/Fs.antt =====
-- kernel/fs.c: the file system. `Blocks` has the allocator of disk blocks, `Inodes` the table of
-- inodes in memory and their copies on the disk, `Path` the elements of a path,
-- `Content` the blocks of an inode's content.
pub mod Blocks
pub mod Inodes
pub mod Path
pub mod Content
pub mod Data
pub mod Dir
