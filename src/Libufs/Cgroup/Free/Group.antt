-- ===== src/Libufs/Cgroup/Free/Group.antt =====
-- `cgbfree` of libufs/cgroup.c on a whole block, from the reading of the group to its writing.
use ufson_mac_os.Base.{ℕ, ◌/◌, ◌%◌, ◌<◌, true, false, Option, some}
use ufson_mac_os.Base.{
  ltb, ◌≡◌, ◌↔◌, refl, sym, subst, ap, ◌∙◌, arith, inl, inr, ◌==◌, if◌then◌else◌,
}
use mathlib.Core.Path.{ap₂}
use ufson_mac_os.Base.Int.{ℤ, pos}
use ufson_mac_os.Ffs.Block.{isblock}
use ufson_mac_os.Ffs.Block.Bytes.{isset}
use ufson_mac_os.Libufs.Disk.{Cg, Uufsd, Message}
use ufson_mac_os.Libufs.Cgroup.Device.{World, whole, cg_offset, stamp, cgwrite}
use ufson_mac_os.Libufs.Cgroup.Device.Check.{
  IsGroup, Reads, cgread1-Reads, full-injective, stamp-same,
}
use ufson_mac_os.Libufs.Cgroup.Device.Write.{Stores, cgwrite-Stores}
use ufson_mac_os.Libufs.Cgroup.Blocks.{nblocks, IsGeometry, BlocksAgree}
use ufson_mac_os.Libufs.Cgroup.Free.{
  fragstoblks, count_block, free_block, release, dtog, on_group, in_group, cgbfree,
}
use ufson_mac_os.Libufs.Cgroup.Free.Whole.{free_block-BlocksAgree}

-- The hash and the message play no part.
BlocksAgree-stamp :
    (disk : Uufsd) (hash : ℕ) (e : Option Message)
    → BlocksAgree disk
    → BlocksAgree (record disk { error = e; cg = record (disk.cg) { ckhash = hash } })
BlocksAgree-stamp disk hash e a = record {
  bytes = a.bytes;
  covers = a.covers;
  own = a.own;
  counted = a.counted;
  summary = a.summary;
  total = a.total;
  sync = a.sync;
  nclusters = a.nclusters;
  bits = a.bits;
}

module _ (w : World) where
  -- What a free of block `h` of group `cg` leaves; `r` is what is returned and the state.
  pub record Frees (disk : Uufsd) (cg : Cg) (h : ℕ) (r : ℤ × Uufsd) : Type 0 where
    pub agree : BlocksAgree (r.1)
    pub freed :
        (j : ℕ)
        → isset r.1.cg.blksfree j ≡ (if j / disk.fs.frag == h then true else isset cg.blksfree j)
    pub status : (r.0 ≡ pos 0) ↔ (w.pwrite (cg_offset disk.fs cg.cgx) (r.1.cg) ≡ whole)

  -- The reading of the group that the device holds.
  cgread1_lem :
      (disk : Uufsd) (c : ℕ) (cg : Cg) (r : ℤ × Uufsd)
      → IsGroup w disk.fs c cg
      → Reads w disk c r
      → r ≡ (pos 1, record disk { cg = cg; lcg = c })
  cgread1_lem disk c cg r g (inl (one_, other, h, e)) =
      let same : other ≡ cg = full-injective w other cg (sym h.read ∙ g.read) in
      ap₂ (λ a b. (a, b)) one_ (e ∙ ap (λ x. record disk { cg = x; lcg = c }) same)
  cgread1_lem disk c cg r g (inr (minus, text, absent, e)) = absurd (absent cg g)

  -- A state that agrees does so once its group is stamped.
  Frees-Stores :
      (disk d : Uufsd) (cg : Cg) (h : ℕ) (r : ℤ × Uufsd)
      → BlocksAgree d
      → d.cg.cgx ≡ cg.cgx
      → d.fs ≡ disk.fs
      → ((j : ℕ)
          → isset d.cg.blksfree j ≡ (if j / disk.fs.frag == h then true else isset cg.blksfree j))
      → Stores w d r
      → Frees disk cg h r
  Frees-Stores disk d cg h r agree number same freed (status, e) =
      let full : r.1 ≡ record d {
        error = r.1.error;
        cg = record (d.cg) { ckhash = (stamp w d.fs d.cg).ckhash };
      } =
        e ∙ ap (λ x. record d { error = r.1.error; cg = x }) (stamp-same w d.fs d.cg) in
      record {
        agree = subst BlocksAgree (sym full) (BlocksAgree-stamp d _ _ agree);
        freed = λ j. ap (λ (x : Uufsd). isset x.cg.blksfree j) full ∙ freed j;
        status =
            subst (λ k. (r.0 ≡ pos 0) ↔ (w.pwrite k (r.1.cg) ≡ whole)) (ap₂ cg_offset same number)
              status;
      }

  module _ (disk : Uufsd) (bno size : ℕ) (cg : Cg) (geo : IsGeometry disk)
      (group : IsGroup w disk.fs (bno / disk.fs.fpg) cg)
      (agree : BlocksAgree (record disk { cg = cg; lcg = bno / disk.fs.fpg }))
      (narrow : bno < 0x80000000) (whole_block : size ≡ disk.fs.bsize)
      (below : fragstoblks disk.fs (bno % disk.fs.fpg) < nblocks disk)
      (used : isblock disk.fs.frag cg.blksfree (fragstoblks disk.fs (bno % disk.fs.fpg))
        ≡ false) where
    abbrev h : ℕ
    h = fragstoblks disk.fs (bno % disk.fs.fpg)

    abbrev got : Uufsd
    got = record disk { cg = cg; lcg = bno / disk.fs.fpg }

    geo_got : IsGeometry got
    geo_got = record {
      known = geo.known;
      shift = geo.shift;
      small = geo.small;
      clustered = geo.clustered;
    }

    release_lem : release got (bno / disk.fs.fpg) (bno % disk.fs.fpg) size ≡ free_block got cg.cgx h
    unfolding release
    release_lem =
        let same : size == disk.fs.bsize ≡ true = ground arith in
        rw same (ap (λ c. free_block got c h) (sym group.cgx))

    dtog_lem : dtog disk.fs bno ≡ some (bno / disk.fs.fpg)
    unfolding dtog
    dtog_lem =
        let cut : bno % 0x100000000 ≡ bno = omega (arith, narrow) in
        let low : ltb bno 0x80000000 ≡ true = ground (arith, narrow) in rw (cut, low) refl

    cgbfree_lem : cgbfree w disk bno size ≡ cgwrite w (free_block got cg.cgx h)
    unfolding cgbfree in_group on_group
    cgbfree_lem =
        ap (in_group w disk bno size) dtog_lem
        ∙ ap (on_group w (bno / disk.fs.fpg) bno size) (
            cgread1_lem disk (bno / disk.fs.fpg) cg _ group
              (cgread1-Reads w disk (bno / disk.fs.fpg)))
        ∙ ap (cgwrite w) release_lem

    -- `cgbfree` of a whole block with a number below 2 ^ 31: if the device holds the block's group, whose maps and counts
    -- agree, and the block is one of the group and is not free, then the group is read, the maps and
    -- counts agree afterwards, exactly the fragments of the block have been put into the map, and 0
    -- is returned exactly when the device takes the group that is then in memory.
    pub cgbfree-Frees : Frees disk cg h (cgbfree w disk bno size)
    unfolding free_block count_block
    cgbfree-Frees =
        let (agreed, freed) = free_block-BlocksAgree got geo_got agree h below used in
        subst (Frees disk cg h) (sym cgbfree_lem) (
          Frees-Stores disk (free_block got cg.cgx h) cg h _ agreed refl refl freed
            (cgwrite-Stores w (free_block got cg.cgx h)))
