-- ===== src/Lib.antt =====
-- A model of the FreeBSD file system (UFS) as this repository ports it to macOS: the code that
-- every part of the system trusts to keep a disk consistent.
--
-- The parts, and where they are modelled:
-- * Ffs (ufsX/ufs/ffs/ffs_subr.c and ffs_tables.c): the free maps of a cylinder group and their
--   counts. Ffs/Block is `ffs_isblock`, `ffs_isfreeblock`, `ffs_setblock` and `ffs_clrblock`;
--   Ffs/Tables is `around`, `inside` and `fragtbl`, which Ffs/Fragacct (`ffs_fragacct`) reads;
--   Ffs/Bitmap is `setbit` and `clrbit`, which Ffs/Cluster (`ffs_clusteracct`) calls. The allocator
--   (ufsX/ufs/ffs/ffs_alloc.c) and libufs call these after each change of a map.
-- * Super (ufsX/ufs/ffs/fs.h, ffs_subr.c): the superblock. Super/Read is `readsuper` and
--   `ffs_sbget`, the search for a superblock and the reading of its summary; Super/Write is
--   `ffs_sbput` and `sbput` of libufs/sblock.c, which calls it for the alternates too.
-- * Libufs (libufs/cgroup.c, inode.c, block.c, type.c): the library of the programs. Libufs/Disk is
--   its state, `ufs_disk_write`, `bwrite` and `bread`; Libufs/Inode is `getinode`, `putinode` and the
--   inode check-hashes of ffs_subr.c; Libufs/Cgroup is `cgballoc` and `cgialloc`, its Device is
--   `cgget`, `cgread`, `cgread1`, `cgput`, `cgwrite` and `cgwrite1`, and its Free is `cgbfree`. They
--   change a group by the routines of Ffs; Blocks and Inodes hold what it means that a group's maps
--   and counts agree.
-- * Bmap (ufsX/ufs/ufs/ufs_bmap.c): `ufs_getlbns`, the path of indirect blocks to a block of a
--   file.
-- * Dirhash (ufsX/ufs/ufs/ufs_dirhash.c, dirhash.h): the hash of the names of a directory. Dirhash is
--   the table of offsets and its operations, `ufsdirhash_add`, `ufsdirhash_remove`,
--   `ufsdirhash_move` and what they call; Probe, Valid, Insert, Delete and Find are about them.
--   Words is the count of free words of each block and the index of first blocks
--   (`ufsdirhash_adjfree`, `ufsdirhash_newblk`, `ufsdirhash_dirtrunc`, `ufsdirhash_enduseful` and the
--   first loop of `ufsdirhash_findfree`), Block is the entries of a directory and
--   `ufsdirhash_getprev`, Lookup is `ufsdirhash_lookup`, Recycle is
--   `ufsdirhash_recycle`, and Build is `ufsdirhash_build`.
-- * Quota (ufsX/ufs/ufs/ufs_quota.c): `chkdq`, `chkiq` and the checks of the limits, over the list of
--   the quotas of an inode.
-- * Alloc (ufsX/ufs/ffs/ffs_alloc.c): `ffs_hashalloc`, over any routine that allocates in a group.
--   Mapsearch is `ffs_mapsearch` with `scanc` (ufsX/freebsd/compat/scanc.c), and Group is
--   `ffs_alloccgblk` and `ffs_alloccg`, on the group that `ffs_getcg` has given; Choose is about the
--   block that is chosen, Whole, Cut and Rest about a whole block and a part of it, and Size and
--   Part about the fragments of a counted size.
-- * Mount (mount_ufs/getmntopts.c): `rmslashes`, on the path that mount_ufs is given.
--
-- State. A map is the list of its bytes and a count a 32-bit residue; `struct fs` and `struct cg`
-- are records of the fields that the code uses. The devices are functions from a place, and what is
-- to be written, to a reply; what is written is a log of the calls. Memory is the number of blocks
-- that `malloc` has given and `free` has not taken back. Calls that may not return give an option,
-- whose `none` is a call that does not return: a loop that goes on, or a trap, such as a division by 0,
-- a null pointer or a write past the end of what was allocated.
--
-- Loops are structural over the rounds that the code's bound allows, or take fuel: the summary
-- loops of `ffs_sbget` and `ffs_sbput` advance by `fs_frag`, so that one round more than there are
-- fragments is enough unless `fs_frag` is 0; the loop over positions of `ffs_fragacct` advances by
-- at least 1, and ends above `fs_frag`. A loop over the slots of a directory hash has as many rounds
-- as there are slots, which are enough while one slot is empty; the loops over the entries of a
-- directory have one round for each byte, as no entry that they pass has length 0. A call of
-- `ufsdirhash_recycle` has one round more than there are hashes on the list.
--
-- Parameters: the device functions, the clock, `malloc`, `calculate_crc32c`, MAXBSIZE and
-- DEV_BSIZE; `fnv_32_buf` of a name, and the contents of a directory with the blocks that can be
-- read; what `ufsdirhash_create` gives, the answers of the locks of other hashes, and the
-- outcome of each call for memory. Block numbers and sizes are not negative, and addresses fit
-- their types. Where libufs cuts a block address or an inode number to `int`, the cut is part of
-- the model, and the theorems take numbers below 2 ^ 31. `struct csum` is opaque bytes in Super,
-- which only copies summaries, and a record in Libufs, which counts in them.
--
-- Not modelled: soft updates, snapshots, the vnode and mount layers, which stand on kernel services
-- that are not in this repository; quota files, the scan of directories, access control lists, the
-- rest of ufsX/ufs/ffs/ffs_alloc.c, and the rest of the command line programs.
pub mod Base
pub mod Ffs
pub mod Super
pub mod Bmap
pub mod Libufs
pub mod Mount
pub mod Dirhash
pub mod Quota
pub mod Alloc
pub mod Tests
