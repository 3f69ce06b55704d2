-- ===== src/Alloc/Group/Whole.antt =====
-- The allocation of a whole block by `ffs_alloccgblk` of ufsX/ufs/ffs/ffs_alloc.c.
use ufson_mac_os.Base.{ℕ, ◌+◌, ◌*◌, ◌/◌, ◌%◌, ◌<◌, ◌≤◌, true, false, Option, some, List}
use ufson_mac_os.Base.{◌≡◌, refl, sym, ap, ◌∙◌, arith, ◌==◌, if◌then◌else◌}
use ufson_mac_os.Super
use ufson_mac_os.Super.{Fs}
use ufson_mac_os.Ffs.Block.{isblock}
use ufson_mac_os.Ffs.Block.Bytes.{isset}
use ufson_mac_os.Ffs.Block.Update.{isset-clrblock}
use ufson_mac_os.Libufs.Disk.{Uufsd}
use ufson_mac_os.Libufs.Cgroup.{take_block}
use ufson_mac_os.Libufs.Cgroup.Blocks.{
  nblocks, IsGeometry, BlocksAgree, take_block-BlocksAgree, inside,
}
use ufson_mac_os.Libufs.Cgroup.Free.{fragstoblks, numfrags}
use ufson_mac_os.Alloc.Group.{Group, free_rest, gotit, alloccgblk}
use ufson_mac_os.Alloc.Group.Choose.{alloccgblk-Chooses}

-- The whole block `h` of the group is allocated: its address is returned.
pub record Allocates (g : Group) (r : ℕ × Group) (h : ℕ) : Type 0 where
  pub inside : h < nblocks g.disk
  pub was_free : isblock g.disk.fs.frag g.disk.cg.blksfree h ≡ true
  pub number : r.0 ≡ g.disk.fs.fpg * g.disk.cg.cgx + h * g.disk.fs.frag
  pub agree : BlocksAgree r.1.disk
  pub taken :
      (j : ℕ)
      → isset r.1.disk.cg.blksfree j
        ≡ (if j / g.disk.fs.frag == h then false else isset g.disk.cg.blksfree j)

-- What the allocation comes to.
abbrev pub Allocated : Group → Option (ℕ × Group) → Type 0
Allocated g result = (r : ℕ × Group) × (h : ℕ) × (result ≡ some r) × Allocates g r h

free_rest-whole :
    (disk : Uufsd) (bno size : ℕ) → size ≡ disk.fs.frag → free_rest disk bno size ≡ disk
unfolding free_rest
free_rest-whole disk bno size e =
    let full : (size == disk.fs.frag) ≡ true = ground arith in rw full refl

frag-take_block : (disk : Uufsd) (h : ℕ) → (take_block disk h).fs.frag ≡ disk.fs.frag
unfolding take_block
frag-take_block disk h = refl

module _ (g : Group) (geo : IsGeometry g.disk) (agree : BlocksAgree g.disk) (size : ℕ)
    (whole : numfrags g.disk.fs size ≡ g.disk.fs.frag) where
  abbrev fs : Fs
  fs = g.disk.fs

  abbrev map : List ℕ
  map = g.disk.cg.blksfree

  gotit_lem :
      (bno rotor frotor : ℕ)
      → gotit (record g { rotor = rotor; frotor = frotor }) bno size ≡ (
        Super.cgbase fs g.disk.cg.cgx + bno,
        record { disk = take_block g.disk (bno / fs.frag); rotor = rotor; frotor = frotor },
      )
  unfolding gotit
  gotit_lem bno rotor frotor =
      let index : fragstoblks fs bno ≡ bno / fs.frag = ap (λ k. bno / k) geo.shift in
      let taken = take_block g.disk (fragstoblks fs bno) in
      ap
        (λ (d : Uufsd). (
          Super.cgbase fs g.disk.cg.cgx + bno,
          record { disk = d; rotor = rotor; frotor = frotor },
        ))
        (free_rest-whole taken _ _ (whole ∙ sym (frag-take_block g.disk (fragstoblks fs bno)))
          ∙ ap (take_block g.disk) index)

  gotit-Allocates :
      (bno rotor frotor : ℕ)
      → bno ≡ bno / fs.frag * fs.frag
      → bno / fs.frag < nblocks g.disk
      → isblock fs.frag map (bno / fs.frag) ≡ true
      → Allocates g (gotit (record g { rotor = rotor; frotor = frotor }) bno size) (bno / fs.frag)
  unfolding take_block Super.cgbase
  gotit-Allocates bno rotor frotor start below free =
      let h = bno / fs.frag in
      rw (gotit_lem bno rotor frotor) (record {
        inside = below;
        was_free = free;
        number = ap (λ k. fs.fpg * g.disk.cg.cgx + k) start;
        agree = take_block-BlocksAgree g.disk geo agree h below free;
        taken = λ j.
            isset-clrblock fs.frag map h j geo.known agree.bytes
              (inside g.disk geo agree h below free);
      })

  module _ (aligned : fs.fpg % fs.frag ≡ 0) (clear : (i : ℕ) → fs.fpg ≤ i → isset map i ≡ false)
      (rotor : g.frotor < fs.fpg) (dblkno metaspace bpref : ℕ) where
    -- If the maps and the counts of free blocks of the group agree, its fragments are whole blocks,
    -- no bit is set past them and the rotor is in the group, then ffs_alloccgblk for a whole block,
    -- with any preference, does not panic while the count of free blocks is not 0: it returns the
    -- address of a block that was free, exactly the fragments of that block are taken out of the
    -- map, and the maps and counts agree again.
    pub alloccgblk-Allocates :
        0 < g.disk.cg.cs.nbfree → Allocated g (alloccgblk dblkno metaspace g bpref size)
    alloccgblk-Allocates some_ =
        let (bno, r, f, e, start, below, free) =
          alloccgblk-Chooses g geo agree size aligned clear rotor dblkno metaspace bpref some_ in
        (
          gotit (record g { rotor = r; frotor = f }) bno size,
          bno / fs.frag,
          e,
          gotit-Allocates bno r f start below free,
        )
