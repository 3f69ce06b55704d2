-- ===== src/Dirhash/Block.antt =====
-- The entries of a directory as ufsX/ufs/ufs/ufs_dirhash.c reads them (`struct direct` of dir.h), and
-- `ufsdirhash_getprev`.
pub mod Entries
use ufson_mac_os.Base.{ℕ, zero, suc, ◌+◌, ◌-◌, ◌%◌, Bool, ◌||◌, List}
use ufson_mac_os.Base.{ltb, ◌==◌, if◌then◌else◌}
use ufson_mac_os.Dirhash.{Name, dirblksiz}

-- `name` is the first `d_namlen` bytes of `d_name`.
pub record Direct : Type 0 where
  pub ino : ℕ
  pub reclen : ℕ
  pub name : Name

-- `readable` says of the offset of a block whether UFS_BLKATOFF gives it, `direct` is the entry that
-- the bytes at an offset spell, and `iosize` is `f_iosize`, a power of 2.
pub record Directory : Type 0 where
  pub size : ℕ
  pub iosize : ℕ
  pub readable : ℕ → Bool
  pub direct : ℕ → Direct

-- The offset that `ufsdirhash_getprev` returns, or -1; `endless` is a loop that goes on.
pub data Prev : Type 0 where
  prev : ℕ → Prev
  no_prev endless : Prev

pub prev_loop : ℕ → Directory → ℕ → ℕ → ℕ → ℕ → Prev
prev_loop zero dir blkoff entrypos i prevoff = endless
prev_loop (suc rounds) dir blkoff entrypos i prevoff =
    let len = (dir.direct (blkoff + i)).reclen in
    let rest = prev_loop rounds dir blkoff entrypos (i + len) (blkoff + i) in
    if ltb i entrypos
    then if len == 0 || ltb entrypos (i + len) then no_prev else rest
    else prev prevoff

pub getprev : Directory → ℕ → Prev
unfolding prev_loop
getprev dir offset =
    let entrypos = offset % dirblksiz in
    let blkoff = offset - entrypos in
    if entrypos == 0 then no_prev else prev_loop (entrypos + 1) dir blkoff entrypos 0 blkoff
