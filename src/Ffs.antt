-- ===== src/Ffs.antt =====
-- The low-level routines of ufsX/ufs/ffs/ffs_subr.c.
pub mod Block
pub mod Tables
pub mod Fragacct
pub mod Bitmap
pub mod Cluster
