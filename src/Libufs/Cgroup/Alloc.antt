-- ===== src/Libufs/Cgroup/Alloc.antt =====
-- `cgballoc` of libufs/cgroup.c as a whole.
use ufson_mac_os.Base.{ℕ, ◌+◌, ◌*◌, ◌/◌, ◌<◌, false, Option, none, some, if◌then◌else◌, ◌==◌}
use ufson_mac_os.Base.{◌≡◌, ◌⊎◌, refl, ap, arith, inl, inr}
use ufson_mac_os.Super
use ufson_mac_os.Ffs.Block.{isblock}
use ufson_mac_os.Ffs.Block.Bytes.{isset}
use ufson_mac_os.Ffs.Block.Update.{isset-clrblock}
use ufson_mac_os.Libufs.Disk.{Uufsd}
use ufson_mac_os.Libufs.Cgroup.{take_block, on_block, cgballoc}
use ufson_mac_os.Libufs.Cgroup.Search.{IsFirst, Finds, first_block-Finds}
use ufson_mac_os.Libufs.Cgroup.Blocks.{
  nblocks, IsGeometry, BlocksAgree, take_block-BlocksAgree, inside,
}

-- The allocation of block `h`, with what is returned.
pub record Allocates (disk : Uufsd) (r : ℕ × Uufsd) (h : ℕ) : Type 0 where
  pub first : IsFirst (isblock disk.fs.frag disk.cg.blksfree) (nblocks disk) h
  pub number : r.0 ≡ disk.fs.fpg * disk.cg.cgx + h * disk.fs.frag
  pub agree : BlocksAgree (r.1)
  pub taken :
      (j : ℕ)
      → isset r.1.cg.blksfree j
        ≡ (if j / disk.fs.frag == h then false else isset disk.cg.blksfree j)

-- Either there is no free block and nothing changes, or one is allocated.
abbrev pub Outcome : Uufsd → ℕ × Uufsd → Type 0
Outcome disk r =
    (((j : ℕ) → j < nblocks disk → isblock disk.fs.frag disk.cg.blksfree j ≡ false)
      × (r ≡ (0, disk)))
    ⊎ ((h : ℕ) × Allocates disk r h)

module _ (disk : Uufsd) (geo : IsGeometry disk) (agree : BlocksAgree disk) where
  on_block-Outcome :
      (o : Option ℕ)
      → Finds (isblock disk.fs.frag disk.cg.blksfree) (nblocks disk) o
      → Outcome disk (on_block disk o)
  unfolding on_block take_block Super.cgbase
  on_block-Outcome none h = inl (h, refl)
  on_block-Outcome (some h) first = inr (
    h,
    record {
      first = first;
      number = ap (λ k. disk.fs.fpg * disk.cg.cgx + h * k) geo.shift;
      agree = take_block-BlocksAgree disk geo agree h first.below first.holds;
      taken = λ j.
          isset-clrblock disk.fs.frag disk.cg.blksfree h j geo.known agree.bytes
            (inside disk geo agree h first.below first.holds);
    },
  )

  -- If the map of the group in memory, its cluster map and counts, and the three counts of free
  -- blocks agree, then either no block of the group is free, and `cgballoc` returns 0 and changes
  -- nothing, or it returns the fragment number of the first free block, takes exactly that block's
  -- fragments out of the map, and the maps and counts agree again.
  pub cgballoc-Outcome : Outcome disk (cgballoc disk)
  unfolding cgballoc
  cgballoc-Outcome = on_block-Outcome _ (
      first_block-Finds disk.fs.frag disk.cg.blksfree (nblocks disk) (nblocks disk) 0 (omega arith)
        (λ j lt. absurd (omega arith)))
