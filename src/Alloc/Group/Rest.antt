-- ===== src/Alloc/Group/Rest.antt =====
-- The part of a block that `ffs_alloccgblk` of ufsX/ufs/ffs/ffs_alloc.c leaves free.
use ufson_mac_os.Base.{ℕ, ◌+◌, ◌-◌, ◌*◌, ◌/◌, ◌%◌, ◌<◌, ◌≤◌, true, false, ◌&&◌, List, inl, inr}
use ufson_mac_os.Base.{
  ◌≡◌, refl, sym, subst, ◌∙◌, arith, ltb, leb, ◌==◌, Bool-cases, if◌then◌else◌, length, add32,
}
use ufson_mac_os.Super.{Fs}
use ufson_mac_os.Ffs.Block.{isblock, clrblock}
use ufson_mac_os.Ffs.Block.Bytes.{isset}
use ufson_mac_os.Ffs.Block.Fragments.{IsFrag, frag_cases}
use ufson_mac_os.Ffs.Block.Update.{isset-clrblock}
use ufson_mac_os.Ffs.Block.Whole.{clrblock-AreBytes, length-clrblock}
use ufson_mac_os.Libufs.Disk.{Uufsd}
use ufson_mac_os.Libufs.Cgroup.Blocks.{nblocks, IsGeometry, BlocksAgree, inside}
use ufson_mac_os.Libufs.Cgroup.Free.{add_frags, set_frags}
use ufson_mac_os.Libufs.Cgroup.Free.Fragments.{isset-set_frags}
use ufson_mac_os.Alloc.Group.Aligned.{block-IsFreeRun, block_end-le}
use ufson_mac_os.Alloc.Group.{Group, free_rest}

-- The `frags` fragments from `bno` on, which are free and of one block, are taken; `after` is the
-- count of free fragments of the group afterwards.
pub record Takes (g : Group) (frags after : ℕ) (r : ℕ × Group) (bno : ℕ) : Type 0 where
  pub number : r.0 ≡ g.disk.fs.fpg * g.disk.cg.cgx + bno
  pub inside : bno + frags ≤ g.disk.fs.fpg
  pub one_block : bno % g.disk.fs.frag + frags ≤ g.disk.fs.frag
  pub were_free : (k : ℕ) → k < frags → isset g.disk.cg.blksfree (bno + k) ≡ true
  pub taken :
      (j : ℕ)
      → isset r.1.disk.cg.blksfree j
        ≡ (if leb bno j && ltb j (bno + frags) then false else isset g.disk.cg.blksfree j)
  pub counted : r.1.disk.cg.cs.nffree ≡ after

in_block :
    {frag : ℕ} (j h : ℕ)
    → IsFrag frag
    → (j / frag == h) ≡ (leb (h * frag) j && ltb j (h * frag + frag))
in_block j h known =
    frag_cases (λ f. (j / f == h) ≡ (leb (h * f) j && ltb j (h * f + f))) known (ground arith)
      (ground arith) (ground arith) (ground arith)

-- The map and the count of free fragments after the rest has been freed.
pub map-free_rest :
    (disk : Uufsd) (bno size : ℕ)
    → (size == disk.fs.frag) ≡ false
    → (free_rest disk bno size).cg.blksfree
      ≡ set_frags (disk.fs.frag - size) (bno + size) (disk.cg.blksfree)
unfolding free_rest add_frags
map-free_rest disk bno size e = rw e refl

pub nffree-free_rest :
    (disk : Uufsd) (bno size : ℕ)
    → (size == disk.fs.frag) ≡ false
    → (free_rest disk bno size).cg.cs.nffree ≡ add32 disk.cg.cs.nffree (disk.fs.frag - size)
unfolding free_rest add_frags
nffree-free_rest disk bno size e = rw e refl

module _ (g : Group) (geo : IsGeometry g.disk) (agree : BlocksAgree g.disk) (h : ℕ)
    (below : h < nblocks g.disk) (free : isblock g.disk.fs.frag g.disk.cg.blksfree h ≡ true) where
  abbrev fs : Fs
  fs = g.disk.fs

  abbrev map : List ℕ
  map = g.disk.cg.blksfree

  fits : h * fs.frag + fs.frag ≤ length map * 8
  fits = omega (arith, block_end-le h fs.fpg geo.known below, agree.covers)

  -- The first `size` fragments of the block are taken, and the others are free as before.
  pub rest_lem :
      (size j : ℕ)
      → size < fs.frag
      → isset (set_frags (fs.frag - size) (h * fs.frag + size) (clrblock fs.frag map h)) j
        ≡ (if leb (h * fs.frag) j && ltb j (h * fs.frag + size) then false else isset map j)
  rest_lem size j lt =
      let room = fits in
      let freed =
        isset-set_frags (fs.frag - size) (h * fs.frag + size) j (clrblock fs.frag map h)
          (clrblock-AreBytes fs.frag map h geo.known agree.bytes)
          (rw (length-clrblock fs.frag map h geo.known) (omega arith)) in
      let cleared =
        isset-clrblock fs.frag map h j geo.known agree.bytes
          (inside g.disk geo agree h below free) in
      let within = in_block j h geo.known in
      elim (Bool-cases (j / fs.frag == h)) [
        | inr e ↦ rw freed (ground arith)
        | inl e ↦
            let own : (leb (h * fs.frag) j && ltb j (h * fs.frag + fs.frag)) ≡ true =
              sym within ∙ e in
            let low : h * fs.frag ≤ j = ground arith in
            let high : j < h * fs.frag + fs.frag = ground arith in
            let run = block-IsFreeRun map geo.known agree.bytes h free in
            let was : isset map j ≡ true =
              subst (λ t. isset map t ≡ true) (omega arith)
                (run.all_free (j - h * fs.frag) (omega arith)) in
            rw freed (ground arith)
      ]
