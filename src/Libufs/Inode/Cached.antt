-- ===== src/Libufs/Inode/Cached.antt =====
-- The block of inodes that `getinode` of libufs/inode.c keeps in memory.
use ufson_mac_os.Base.{ℕ, ◌+◌, ◌*◌, ◌%◌, ◌<◌, ◌≤◌, Option, none, some, List, replicate}
use ufson_mac_os.Base.{◌≡◌, ◌≢◌, ◌⊎◌}
use ufson_mac_os.Base.Int.{ℤ, pos, negsuc}
use ufson_mac_os.Super
use ufson_mac_os.Super.{Errno}
use ufson_mac_os.Libufs.Disk.Writes.{Reads}
use ufson_mac_os.Libufs.Cgroup.{ino_to_fsba}
use ufson_mac_os.Libufs.Inode.{Dinode, no_dinode, verify_dinode_ckhash, Inodes, current}

-- The bounds are those of a block of inodes, or are both 0.
pub record IsCached (s : Inodes) : Type 0 where
  pub aligned : s.inomin % s.disk.fs.inopb ≡ 0
  pub bounded : s.inomax ≤ s.inomin + s.disk.fs.inopb

-- `d_dp` points to inode `inum`, in a block that has it.
pub record PointsTo (t : Inodes) (inum : ℕ) : Type 0 where
  pub low : t.inomin ≤ inum
  pub high : inum < t.inomax
  pub index : t.dp + t.inomin ≡ inum
  pub block : t.inoblock ≢ none

module _ (crc : Dinode → ℕ) (malloc : Option (List Dinode))
    (pread : ℕ → ℕ → Option (ℕ × List Dinode)) where
  -- The block that `getinode` works with.
  abbrev pub held : Inodes → Option (List Dinode)
  held s = elim s.inoblock [ none ↦ malloc | some inoblock ↦ some inoblock ]

  -- Where the block in memory comes from: it was there, or is what the device has at the place of
  -- the block of the inode, or, if the device does not give the whole of that, is zeros.
  abbrev pub Source : Inodes → Inodes → ℕ → Type 0
  Source s t inum =
      ((s.inomin ≤ inum)
        × (inum < s.inomax)
        × (t.inoblock ≡ held s)
        × (t.disk ≡ record (s.disk) { error = none }))
      ⊎ (((inum < s.inomin) ⊎ (s.inomax ≤ inum))
          × ((block : List Dinode) × (t.inoblock ≡ some block)
              × Reads (replicate s.disk.fs.inopb no_dinode) s.disk.fs.bsize (s.disk)
                  (pread s.disk.fs.bsize
                    (Super.fsbtodb (s.disk.fs) (ino_to_fsba (s.disk.fs) inum) * s.disk.bsize))
                  (pos 0, block, t.disk)))

  -- The inode that `d_dp` points to in the end, and its hash.
  abbrev pub verified : Inodes → Option Errno
  verified t = verify_dinode_ckhash crc t.disk.fs (current crc malloc pread t)

  -- How `getinode` ends.
  abbrev pub Ends : Inodes → ℕ → Option (ℤ × Inodes) → Type 0
  Ends s inum none =
      (inum < s.disk.fs.ipg * s.disk.fs.ncg)
      × (held s ≢ none)
      × (s.ufs ≡ 2)
      × ((t : Inodes) × PointsTo t inum × Source s t inum × (verified t ≢ none))
  Ends s inum (some (rv, t)) =
      IsCached t
      × (((rv ≡ pos 0)
            × (inum < s.disk.fs.ipg * s.disk.fs.ncg)
            × (held s ≢ none)
            × ((s.ufs ≡ 1) ⊎ (s.ufs ≡ 2))
            × PointsTo t inum
            × Source s t inum
            × ((s.ufs ≡ 2) → verified t ≡ none))
          ⊎ ((rv ≡ negsuc 0)
              × (t.disk.error ≢ none)
              × ((s.disk.fs.ipg * s.disk.fs.ncg ≤ inum)
                  ⊎ (held s ≡ none)
                  ⊎ ((s.ufs ≢ 1) × (s.ufs ≢ 2)))))

  abbrev cleared : Inodes → Inodes
  cleared s = record s { disk = record (s.disk) { error = none } }

  -- What `fetch` leaves.
  pub record Fetched (s t : Inodes) (inum : ℕ) : Type 0 where
    cached : IsCached t
    low : t.inomin ≤ inum
    high : inum < t.inomax
    block : t.inoblock ≢ none
    source : Source s t inum
    same : t.ufs ≡ s.ufs
    present : held s ≢ none
