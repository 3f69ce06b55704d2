-- ===== src/Alloc/Group/Choose.antt =====
-- The block that `ffs_alloccgblk` of ufsX/ufs/ffs/ffs_alloc.c chooses.
use ufson_mac_os.Base.{ℕ, ◌*◌, ◌/◌, ◌%◌, ◌<◌, ◌≤◌, true, false, Option, some, List, inl, inr}
use ufson_mac_os.Base.{◌≡◌, leb, refl, ap, ◌∙◌, arith, Bool-cases, if◌then◌else◌}
use ufson_mac_os.Base.Count.{count_member}
use native.Mathlib.Nat.{mod-lt, mod-mod_of_dvd, dvd_of_mod-eq-zero}
use ufson_mac_os.Super.{Fs}
use ufson_mac_os.Ffs.Block.{isblock}
use ufson_mac_os.Ffs.Block.Bytes.{isset}
use ufson_mac_os.Libufs.Cgroup.Blocks.{nblocks, IsGeometry, BlocksAgree, blocks-le}
use ufson_mac_os.Libufs.Cgroup.Free.{fragstoblks}
use ufson_mac_os.Alloc.Mapsearch.{Search}
use ufson_mac_os.Alloc.Mapsearch.Found.{Finds, mapsearch-Finds}
use ufson_mac_os.Alloc.Group.{Group, blknum, cgdata, gotit, zone, on_search, alloccgblk}
use ufson_mac_os.Alloc.Group.Aligned.{
  aligned_lem, blknum_lem, room_lem, frag_pos, fits_lem, block-IsFreeRun, run_isblock,
}

-- The code comes to `gotit` with the first fragment of a free block of the group.
abbrev pub Chooses : Group → ℕ → Option (ℕ × Group) → Type 0
Chooses g size result =
    (bno : ℕ) × (rotor : ℕ) × (frotor : ℕ) × (result
      ≡ some (gotit (record g { rotor = rotor; frotor = frotor }) bno size))
    × (bno ≡ bno / g.disk.fs.frag * g.disk.fs.frag)
    × (bno / g.disk.fs.frag < nblocks g.disk)
    × (isblock g.disk.fs.frag g.disk.cg.blksfree (bno / g.disk.fs.frag) ≡ true)

module _ (g : Group) (geo : IsGeometry g.disk) (agree : BlocksAgree g.disk) (size : ℕ) where
  abbrev fs : Fs
  fs = g.disk.fs

  abbrev map : List ℕ
  map = g.disk.cg.blksfree

  module _ (aligned : fs.fpg % fs.frag ≡ 0) (clear : (i : ℕ) → fs.fpg ≤ i → isset map i ≡ false)
      (rotor : g.frotor < fs.fpg) (dblkno metaspace bpref : ℕ) where
    abbrev pref : ℕ
    pref = zone dblkno metaspace g bpref

    pref_lem : blknum fs pref % fs.fpg % fs.frag ≡ 0
    pref_lem =
        mod-mod_of_dvd fs.frag (blknum fs pref) (dvd_of_mod-eq-zero _ aligned)
        ∙ blknum_lem pref geo.known

    search_lem :
        (result : Search)
        → Finds fs.frag fs.fpg map fs.frag result
        → Chooses g size (on_search dblkno metaspace g size result)
    unfolding on_search
    search_lem result (bno, e, run, within) =
        let (start, free) = run_isblock map geo.known agree.bytes bno run in
        let below = room_lem bno fs.fpg geo.known within in
        let data_ = cgdata dblkno metaspace fs g.disk.cg.cgx % fs.fpg in
        rw e (bno, (if leb data_ bno then bno else g.rotor), bno / 8 * 8, refl, start, below, free)

    pub alloccgblk-Chooses :
        0 < g.disk.cg.cs.nbfree → Chooses g size (alloccgblk dblkno metaspace g bpref size)
    unfolding alloccgblk
    alloccgblk-Chooses some_ =
        let bno = blknum fs pref % fs.fpg in
        let index : fragstoblks fs bno ≡ bno / fs.frag = ap (λ k. bno / k) geo.shift in
        let (h, low, free) =
          count_member (nblocks g.disk) (isblock fs.frag map) (omega (arith, agree.counted)) in
        let some_fpg : 0 < fs.fpg = omega (arith, low, blocks-le fs.frag fs.fpg geo.known) in
        elim (Bool-cases (isblock fs.frag map (fragstoblks fs bno))) [
          | inl e ↦
              let inside =
                fits_lem bno fs.fpg geo.known pref_lem aligned (mod-lt (blknum fs pref) some_fpg) in
              rw e (
                bno,
                g.rotor,
                g.frotor,
                refl,
                aligned_lem bno geo.known pref_lem,
                room_lem bno fs.fpg geo.known inside,
                rw index at e,
              )
          | inr e ↦ rw e (
              search_lem _ (
                mapsearch-Finds fs.fpg map geo.known agree.bytes clear fs.frag g.frotor pref
                  (h * fs.frag) (frag_pos geo.known) (omega arith) rotor
                  (block-IsFreeRun map geo.known agree.bytes h free)))
        ]
