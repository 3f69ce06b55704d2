-- ===== src/Libufs.antt =====
-- libufs: the library that the programs reach a file system on a disk with.
pub mod Disk
pub mod Cgroup
pub mod Inode
