-- ===== src/Libufs/Inode.antt =====
-- `getinode` and `putinode` of libufs/inode.c, and the inode check-hashes of
-- ufsX/ufs/ffs/ffs_subr.c. Inode numbers have 64 bits. An inode is its mode, its hash and its other
-- fields as they are on the disk; the two sizes of inodes make no difference here.
pub mod Cached
pub mod Hash
use ufson_mac_os.Base.{
  ℕ, zero, suc, ◌+◌, ◌-◌, ◌*◌, ◌%◌, Bool, true, false, ◌&&◌, ◌||◌, Option, none, some, List, [],
}
use ufson_mac_os.Base.{ltb, leb, ◌==◌, if◌then◌else◌, bit_and, get_or, set, replicate}
use ufson_mac_os.Base.Int.{ℤ, pos, negsuc}
use ufson_mac_os.Super
use ufson_mac_os.Super.{Fs, Errno}
use ufson_mac_os.Libufs.Disk.{
  Uufsd, bread, bwrite, inode_range, inode_memory, no_inode_block, bad_inode_hash, unknown_type,
}
use ufson_mac_os.Libufs.Cgroup.{ino_to_fsba}

abbrev pub ck_inode : ℕ
ck_inode = 0x0004

pub record Dinode : Type 0 where
  pub mode : ℕ
  pub ckhash : ℕ
  pub body : List ℕ

abbrev pub no_dinode : Dinode
no_dinode = record { mode = 0; ckhash = 0; body = [] }

-- `int` from 64 bits, widened again.
abbrev pub to_int : ℕ → ℕ
to_int n = let low = n % 0x100000000 in if ltb low 0x80000000 then low else low + 0xffffffff00000000

-- The bounds of the block of an inode: a sum of 64 bits, and one of 32 bits without sign.
unfoldable pub first_in_block : Fs → ℕ → ℕ
first_in_block fs inum =
    (to_int inum + (0x10000000000000000 - inum % fs.inopb)) % 0x10000000000000000

unfoldable pub past_block : Fs → ℕ → ℕ
past_block fs first = (first + fs.inopb) % 0x100000000

-- The index of an inode, as a difference of 64 bits.
unfoldable pub index_from : ℕ → ℕ → ℕ
index_from first inum = (inum + (0x10000000000000000 - first)) % 0x10000000000000000

-- `crc` is `calculate_crc32c(~0L, …)` over an inode; no error is 0.
module _ (crc : Dinode → ℕ) where
  abbrev pub unhashed : Fs → Dinode → Bool
  unhashed fs dip = dip.mode == 0 || bit_and fs.metackhash ck_inode == 0

  unfoldable pub verify_dinode_ckhash : Fs → Dinode → Option Errno
  verify_dinode_ckhash fs dip =
      if unhashed fs dip
      then none
      else if dip.ckhash == crc (record dip { ckhash = 0 })
      then none
      else some Super.einval

  unfoldable pub update_dinode_ckhash : Fs → Dinode → Dinode
  update_dinode_ckhash fs dip =
      if unhashed fs dip then dip else record dip { ckhash = crc (record dip { ckhash = 0 }) }

-- `struct uufsd` with the fields that only these routines use: `d_inoblock`, which is `none` when
-- null, its bounds, the index that `d_dp` points to within it, and `d_ufs`.
pub record Inodes : Type 0 where
  pub disk : Uufsd
  pub inoblock : Option (List Dinode)
  pub inomin : ℕ
  pub inomax : ℕ
  pub dp : ℕ
  pub ufs : ℕ

-- The message that a failure leaves.
abbrev pub fail : Inodes → Uufsd → ℤ × Inodes
fail s disk = (negsuc 0, record s { disk = disk })

-- `malloc` gives a buffer with something in it, or none; `pread` is the device.
module _ (crc : Dinode → ℕ) (malloc : Option (List Dinode))
    (pread : ℕ → ℕ → Option (ℕ × List Dinode)) where
  -- The block with the inode is in memory afterwards, whatever `bread` returns.
  pub fetch : Inodes → List Dinode → ℕ → Inodes
  fetch s inoblock inum =
      let fs = s.disk.fs in
      if leb s.inomin inum && ltb inum s.inomax
      then record s { inoblock = some inoblock }
      else let (cnt, buf, disk) =
          bread (replicate fs.inopb no_dinode) pread s.disk (Super.fsbtodb fs (ino_to_fsba fs inum))
            fs.bsize in
        record s {
          disk = disk;
          inoblock = some buf;
          inomin = first_in_block fs inum;
          inomax = past_block fs (first_in_block fs inum);
        }

  -- The inode `d_dp` points to.
  abbrev pub current : Inodes → Dinode
  current s = elim s.inoblock [ none ↦ no_dinode | some inoblock ↦ get_or inoblock s.dp no_dinode ]

  pub on_verify : Inodes → Option Errno → Option (ℤ × Inodes)
  on_verify at none = some (pos 0, at)
  on_verify at (some e) = none

  pub select : Inodes → ℕ → Option (ℤ × Inodes)
  select s inum =
      let at : Inodes = record s { dp = index_from s.inomin inum } in
      if s.ufs == 1
      then some (pos 0, at)
      else if s.ufs == 2
      then on_verify at (verify_dinode_ckhash crc s.disk.fs (current at))
      else some (fail s (record (s.disk) { error = some unknown_type }))

  pub with_block : Inodes → Option (List Dinode) → ℕ → Option (ℤ × Inodes)
  with_block s none inum = some (fail s (record (s.disk) { error = some inode_memory }))
  with_block s (some inoblock) inum = select (fetch s inoblock inum) inum

  -- `none` is the SIGTRAP that the code raises for a wrong hash.
  pub getinode : Inodes → ℕ → Option (ℤ × Inodes)
  getinode s inum =
      let disk = record (s.disk) { error = none } in
      if leb (disk.fs.ipg * disk.fs.ncg) inum
      then some (fail s (record disk { error = some inode_range }))
      else with_block (record s { disk = disk })
          (elim s.inoblock [ none ↦ malloc | some inoblock ↦ some inoblock ]) inum

-- What follows `bwrite`.
pub on_written : Inodes → ℤ × Uufsd → ℤ × Inodes
on_written s (negsuc n, disk) = (negsuc 0, record s { disk = disk })
on_written s (pos zero, disk) = (negsuc 0, record s { disk = disk })
on_written s (pos (suc n), disk) = (pos 0, record s { disk = disk })

module _ (crc : Dinode → ℕ) (opens : Option ℕ) (pwrite : ℕ → List Dinode → ℕ → Option ℕ) where
  -- The block to write.
  pub hashed : Inodes → List Dinode → List Dinode
  hashed s inoblock =
      if s.ufs == 2
      then set inoblock s.dp (update_dinode_ckhash crc s.disk.fs (get_or inoblock s.dp no_dinode))
      else inoblock

  pub put_block : Inodes → Option (List Dinode) → ℤ × Inodes
  put_block s none = fail s (record (s.disk) { error = some no_inode_block })
  put_block s (some inoblock) =
      let block = hashed s inoblock in
      let fs = s.disk.fs in
      on_written (record s { inoblock = some block })
        (bwrite opens pwrite s.disk (Super.fsbtodb fs (ino_to_fsba fs s.inomin)) block fs.bsize)

  pub putinode : Inodes → ℤ × Inodes
  putinode s = put_block s s.inoblock
