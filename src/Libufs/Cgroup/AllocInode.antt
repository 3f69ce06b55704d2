-- ===== src/Libufs/Cgroup/AllocInode.antt =====
-- `cgialloc` of libufs/cgroup.c as a whole.
use ufson_mac_os.Base.{
  ℕ, zero, suc, ◌+◌, ◌*◌, ◌<◌, true, false, Option, none, some, List, Bool-cases,
}
use ufson_mac_os.Base.{◌≡◌, ◌⊎◌, refl, arith, inl, inr, ◌==◌, if◌then◌else◌}
use ufson_mac_os.Base.Int.{ℤ, pos, negsuc}
use ufson_mac_os.Libufs.Disk.{Uufsd}
use ufson_mac_os.Libufs.Disk.Writes.{Keeps, Written, bwrite-Written}
use ufson_mac_os.Libufs.Cgroup.{
  isclr, take_inode, needs_block, ino_to_fsba, on_bwrite, on_inode, cgialloc,
}
use ufson_mac_os.Libufs.Cgroup.Search.{IsFirst, Finds, first_inode-Finds}
use ufson_mac_os.Libufs.Cgroup.Inodes.{InodesAgree, take_inode-InodesAgree, isclr-setbit}

-- The allocation of inode `ino` of the group, with what is returned.
pub record AllocatesInode (disk : Uufsd) (r : ℕ × Uufsd) (ino : ℕ) : Type 0 where
  pub ready : needs_block disk ino ≡ false
  pub number : r.0 ≡ ino + disk.cg.cgx * disk.fs.ipg
  pub agree : InodesAgree (r.1)
  pub taken :
      (j : ℕ) → isclr r.1.cg.inosused j ≡ (if j == ino then false else isclr disk.cg.inosused j)

-- Nothing is allocated, though `ino` is free, as its block of inodes is not written yet.
pub record Declines (disk : Uufsd) (r : ℕ × Uufsd) (ino : ℕ) : Type 0 where
  pub unready : needs_block disk ino ≡ true
  pub number : r.0 ≡ 0
  pub same : Keeps disk (r.1)

abbrev pub InodeOutcome : Uufsd → ℕ × Uufsd → Type 0
InodeOutcome disk r =
    (((j : ℕ) → j < disk.fs.ipg → isclr disk.cg.inosused j ≡ false) × (r ≡ (0, disk)))
    ⊎ ((ino : ℕ) × IsFirst (isclr disk.cg.inosused) disk.fs.ipg ino
        × (Declines disk r ino ⊎ AllocatesInode disk r ino))

module _ (opens : Option ℕ) (pwrite : ℕ → List ℕ → ℕ → Option ℕ) (inodes : List ℕ) (disk : Uufsd)
    (agree : InodesAgree disk) (sized : 0 < disk.fs.bsize) where
  -- Both results of a write are nonzero.
  on_bwrite_lem :
      (blockno ino : ℕ) (r : ℤ × Uufsd)
      → Written opens pwrite disk blockno inodes disk.fs.bsize r
      → Keeps disk (r.1)
      → ((on_bwrite ino r).0 ≡ 0) × Keeps disk ((on_bwrite ino r).1)
  unfolding on_bwrite
  on_bwrite_lem blockno ino (negsuc n, d) w k = (refl, k)
  on_bwrite_lem blockno ino (pos (suc n), d) w k = (refl, k)
  on_bwrite_lem blockno ino (pos zero, d) (inl h) k = absurd (ground (arith, h.0, sized))
  on_bwrite_lem blockno ino (pos zero, d) (inr h) k = absurd (let e = h.0 in cc)

  on_inode-Outcome :
      (o : Option ℕ)
      → Finds (isclr disk.cg.inosused) disk.fs.ipg o
      → InodeOutcome disk (on_inode opens pwrite inodes disk o)
  unfolding on_inode take_inode
  on_inode-Outcome none h = inl (h, refl)
  on_inode-Outcome (some ino) first = inr (
    ino,
    first,
    elim (Bool-cases (needs_block disk ino)) [
      | inl t ↦
          let blockno = ino_to_fsba disk.fs (disk.cg.cgx * disk.fs.ipg + disk.cg.initediblk) in
          let (w, k, d) = bwrite-Written opens pwrite disk blockno inodes disk.fs.bsize in
          let (zero_, same) = on_bwrite_lem blockno ino _ w k in
          rw (t, on_inode) (inl (record { unready = t; number = zero_; same = same }))
      | inr f ↦
          rw (f, on_inode)
            (inr (record {
              ready = f;
              number = refl;
              agree = take_inode-InodesAgree disk agree ino first;
              taken = isclr-setbit disk agree ino first;
            }))
    ],
  )

  -- If the map of inodes of the group in memory and the three counts of free inodes agree, and the
  -- size of a block is not 0, then `cgialloc` ends in one of three ways. Either no inode is free, and it returns 0 and changes
  -- nothing; or the block of the first free inode has to be initialised, and then it returns 0 and
  -- changes no map and no count, whatever becomes of the write; or it returns the number of the
  -- first free inode, takes just that one, and the map and the counts agree again.
  pub cgialloc-Outcome : InodeOutcome disk (cgialloc opens pwrite inodes disk)
  unfolding cgialloc
  cgialloc-Outcome = on_inode-Outcome _ (
      first_inode-Finds disk.cg.inosused disk.fs.ipg disk.fs.ipg 0 (omega arith)
        (λ j lt. absurd (omega arith)))
