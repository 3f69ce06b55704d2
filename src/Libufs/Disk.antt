-- ===== src/Libufs/Disk.antt =====
-- The state of libufs (`struct uufsd` of libufs/libufs.h, with the `struct cg` and `struct csum` of
-- ufsX/ufs/ffs/fs.h), `ufs_disk_write` of libufs/type.c, and `bwrite` and `bread` of libufs/block.c.
-- `fs_csp` is the array `csp` of summaries here; the entry of `fs_maxcluster` for the group in memory
-- stands in `clusters`. Counts are residues modulo 2 ^ 32, and those of `fs_cstotal` modulo 2 ^ 64.
pub mod Writes
use ufson_mac_os.Base.{
  ℕ, ◌*◌, Bool, true, false, Option, none, some, List, [], ◌∷◌, ◌++◌, ◌==◌, if◌then◌else◌,
}
use ufson_mac_os.Base.Int.{ℤ, pos, negsuc}
use ufson_mac_os.Super.{Fs, Errno}
use ufson_mac_os.Ffs.Cluster.{Clusters}

-- `struct csum` and `struct csum_total`
pub record Csum : Type 0 where
  pub ndir : ℕ
  pub nbfree : ℕ
  pub nifree : ℕ
  pub nffree : ℕ

-- `struct cg`: the maps and counts behind its offsets are fields.
pub record Cg : Type 0 where
  pub magic : ℕ
  pub cgx : ℕ
  pub cs : Csum
  pub irotor : ℕ
  pub frsum : List ℕ
  pub niblk : ℕ
  pub initediblk : ℕ
  pub ckhash : ℕ
  pub inosused : List ℕ
  pub blksfree : List ℕ
  pub clusters : Clusters

-- The texts that `d_error` points to.
pub data Message : Type 0 where
  open_failed write_error short_write : Message
  end_of_file short_read checks_failed read_error : Message
  short_read_or_error : Message
  unable_to_write mismatch : Message
  inode_range inode_memory no_inode_block bad_inode_hash unknown_type : Message
  strerror : Errno → Message

-- `struct uufsd`; `writable` is MINE_WRITE of `d_mine`, `fd` is `d_fd`, and `closed` is the log of
-- the calls of `close`.
pub record Uufsd : Type 0 where
  pub writable : Bool
  pub fd : ℕ
  pub closed : List ℕ
  pub bsize : ℕ
  pub error : Option Message
  pub fs : Fs
  pub cstotal : Csum
  pub csp : List Csum
  pub cg : Cg
  pub ccg : ℕ
  pub lcg : ℕ

-- What follows `open`, whose -1 is `none`.
pub on_open : Option ℕ → Uufsd → ℤ × Uufsd
on_open none disk = (negsuc 0, record disk { error = some open_failed })
on_open (some fd) disk = (
  pos 0,
  record disk { error = none; writable = true; fd = fd; closed = disk.closed ++ disk.fd ∷ [] },
)

-- `opens` is the descriptor that `open` gives for reading and writing.
pub ufs_disk_write : Option ℕ → Uufsd → ℤ × Uufsd
ufs_disk_write opens disk =
    if disk.writable then (pos 0, record disk { error = none }) else on_open opens disk

-- What follows `pwrite`, whose -1 is `none`.
pub on_pwrite : Option ℕ → ℕ → Uufsd → ℤ × Uufsd
on_pwrite none size disk = (negsuc 0, record disk { error = some write_error })
on_pwrite (some cnt) size disk =
    if cnt == size then (pos cnt, disk) else (negsuc 0, record disk { error = some short_write })

-- `pwrite` gives the count for an offset, the data and the size.
module _ {A : Type 0} (opens : Option ℕ) (pwrite : ℕ → A → ℕ → Option ℕ) where
  pub after_open : ℤ × Uufsd → ℕ → A → ℕ → ℤ × Uufsd
  after_open (pos rv, disk) blockno data_ size =
      on_pwrite (pwrite (blockno * disk.bsize) data_ size) size disk
  after_open (negsuc rv, disk) blockno data_ size =
      (negsuc 0, record disk { error = some open_failed })

  pub bwrite : Uufsd → ℕ → A → ℕ → ℤ × Uufsd
  bwrite disk blockno data_ size = after_open (ufs_disk_write opens disk) blockno data_ size

-- What follows `pread` into a buffer: the count and what the buffer holds, or -1, which is `none`.
-- Every failure clears the buffer.
module _ {A : Type 0} (zeros : A) where
  pub on_pread : Option (ℕ × A) → ℕ → Uufsd → ℤ × A × Uufsd
  on_pread none size disk = (negsuc 0, zeros, record disk { error = some read_error })
  on_pread (some (cnt, buf)) size disk =
      if cnt == 0
      then (negsuc 0, zeros, record disk { error = some end_of_file })
      else if cnt == size
      then (pos cnt, buf, disk)
      else (negsuc 0, zeros, record disk { error = some short_read_or_error })

  pub bread : (ℕ → ℕ → Option (ℕ × A)) → Uufsd → ℕ → ℕ → ℤ × A × Uufsd
  bread pread disk blockno size =
      on_pread (pread size (blockno * disk.bsize)) size (record disk { error = none })
