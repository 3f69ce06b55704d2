-- ===== src/Alloc/Group/Part.antt =====
-- The allocation of a part of a block by `ffs_alloccg` of ufsX/ufs/ffs/ffs_alloc.c.
use ufson_mac_os.Base.{ℕ, ◌-◌, ◌*◌, ◌%◌, ◌<◌, ◌≤◌, ◌⊎◌, false, Option, some}
use ufson_mac_os.Base.{◌≡◌, ◌≢◌, get_or, length, sub32, add32}
use ufson_mac_os.Super
use ufson_mac_os.Super.{Fs}
use ufson_mac_os.Ffs.Block.Bytes.{isset}
use ufson_mac_os.Ffs.Block.Fragments.{IsFrag, AreBytes}
use ufson_mac_os.Libufs.Cgroup.Free.{numfrags}
use ufson_mac_os.Alloc.Mapsearch.Sift.{IsFreeRun}
use ufson_mac_os.Alloc.Group.Rest.{Takes}
use ufson_mac_os.Libufs.Cgroup.Blocks.{IsGeometry, BlocksAgree}
use ufson_mac_os.Alloc.Group.{Group}

-- What the allocation of a part relies on: a size that is counted is there, no bit is set past the
-- group, and the map and the rotor are those of a group.
pub record IsCounted (g : Group) : Type 0 where
  pub known : IsFrag g.disk.fs.frag
  pub bytes : AreBytes g.disk.cg.blksfree
  pub covers : g.disk.fs.fpg ≤ length g.disk.cg.blksfree * 8
  pub clear : (i : ℕ) → g.disk.fs.fpg ≤ i → isset g.disk.cg.blksfree i ≡ false
  pub rotor : g.frotor < g.disk.fs.fpg
  pub sizes :
      (s : ℕ)
      → 1 ≤ s
      → s < g.disk.fs.frag
      → get_or g.disk.cg.frsum s 0 ≢ 0
      → (bno : ℕ) × IsFreeRun g.disk.fs.frag g.disk.cg.blksfree s bno

-- Nothing is free for it and nothing changes, or the fragments are taken, from a run of them or from
-- a whole block, whose rest is free then.
abbrev pub PartOutcome : Group → ℕ → Option (ℕ × Group) → Type 0
PartOutcome g frags result =
    (((s : ℕ) → frags ≤ s → s < g.disk.fs.frag → get_or g.disk.cg.frsum s 0 ≡ 0)
      × (g.disk.cg.cs.nbfree ≡ 0)
      × (result ≡ some (0, g)))
    ⊎ ((r : ℕ × Group) × (bno : ℕ) × (after : ℕ) × (result ≡ some r)
        × ((after ≡ sub32 g.disk.cg.cs.nffree frags)
            ⊎ (after ≡ add32 g.disk.cg.cs.nffree (g.disk.fs.frag - frags)))
        × Takes g frags after r bno)

module _ (g : Group) (counted : IsCounted g) (geo : IsGeometry g.disk) (agree : BlocksAgree g.disk)
    (aligned : g.disk.fs.fpg % g.disk.fs.frag ≡ 0) (dblkno metaspace bpref size : ℕ)
    (pos : 1 ≤ numfrags g.disk.fs size) (lt : numfrags g.disk.fs size < g.disk.fs.frag) where
  abbrev frags : ℕ
  frags = numfrags g.disk.fs size
