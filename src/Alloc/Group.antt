-- ===== src/Alloc/Group.antt =====
-- The allocation in one cylinder group of ufsX/ufs/ffs/ffs_alloc.c: `ffs_alloccgblk` and `ffs_alloccg`.
-- The superblock, the summaries and the group stand in the fields of Libufs.Disk that hold the same structures;
-- `cg_rotor` and `cg_frotor` are beside them. `dblkno` and `metaspace` are the fields of those names
-- of the superblock. A `panic` is `none`. The locks, ACTIVECLEAR, the soft updates' records and the write of
-- the buffer are left out.
pub mod Aligned
pub mod Choose
pub mod Whole
pub mod Rest
pub mod Cut
pub mod Size
pub mod Part
use ufson_mac_os.Base.{
  ℕ, zero, suc, ◌+◌, ◌-◌, ◌*◌, ◌/◌, ◌%◌, Bool, true, false, ◌&&◌, Option, none, some, List, bit_and,
}
use ufson_mac_os.Base.{ltb, leb, ◌==◌, if◌then◌else◌, get_or, set, add32, minus_one}
use ufson_mac_os.Super
use ufson_mac_os.Super.{Fs}
use ufson_mac_os.Ffs.Block.{isblock}
use ufson_mac_os.Ffs.Bitmap.{clrbit}
use ufson_mac_os.Libufs.Disk.{Uufsd}
use ufson_mac_os.Libufs.Cgroup.{fs_cs, take_block}
use ufson_mac_os.Libufs.Cgroup.Free.{
  fragstoblks, numfrags, fragnum, set_frags, add_frags, sub_frags,
}
use ufson_mac_os.Alloc.Mapsearch.{Search, map_corrupted, not_in_map, found, mapsearch}

pub record Group : Type 0 where
  pub disk : Uufsd
  pub rotor : ℕ
  pub frotor : ℕ

-- `blknum`
abbrev pub blknum : Fs → ℕ → ℕ
blknum fs fsb = fsb - fragnum fs fsb

-- `cg_frsum[i] += n`, for 1 or for -1, which is `minus_one`.
abbrev pub add_frsum : Uufsd → ℕ → ℕ → Uufsd
add_frsum disk i n =
    let cg = disk.cg in
    record disk { cg = record cg { frsum = set cg.frsum i (add32 (get_or cg.frsum i 0) n) } }

-- `if (size != fs->fs_frag)`, with the size in fragments: the rest of the block is free.
pub free_rest : Uufsd → ℕ → ℕ → Uufsd
free_rest disk bno size =
    let fs = disk.fs in
    let cg = disk.cg in
    let rest = fs.frag - size in
    if size == fs.frag
    then disk
    else add_frsum
        (add_frags
          (record disk { cg = record cg { blksfree = set_frags rest (bno + size) cg.blksfree } })
          cg.cgx rest)
        rest 1

-- From the label `gotit` on, for fragment `bno` of the group.
unfoldable pub gotit : Group → ℕ → ℕ → ℕ × Group
gotit g bno size =
    let fs = g.disk.fs in
    let cgx = g.disk.cg.cgx in
    let blkno = Super.cgbase fs cgx + bno in
    let taken = take_block g.disk (fragstoblks fs bno) in
    (blkno, record g { disk = free_rest taken (blkno % fs.fpg) (numfrags fs size) })

-- `for (i = 0; i < frags; i++) clrbit(blksfree, bno + i);`, with the rounds that are left.
pub clear_frags : ℕ → ℕ → List ℕ → List ℕ
clear_frags zero i blksfree = blksfree
clear_frags (suc left) i blksfree = clear_frags left (i + 1) (clrbit blksfree i)

-- The smallest size from `i` on of which there are free fragments, with the rounds that are left.
pub first_size : List ℕ → ℕ → ℕ → ℕ
first_size frsum zero i = i
first_size frsum (suc left) i = elim (get_or frsum i 0 == 0) [
  | true ↦ first_size frsum left (i + 1)
  | false ↦ i
]

-- The fragments of a larger run, of `allocsiz` fragments, are taken.
unfoldable pub take_frags : Group → ℕ → ℕ → ℕ → ℕ × Group
take_frags g bno frags allocsiz =
    let cg = g.disk.cg in
    let fs = g.disk.fs in
    let cleared = record (g.disk) {
      cg = record cg { blksfree = clear_frags frags bno cg.blksfree };
    } in
    let counted = add_frsum (sub_frags cleared cg.cgx frags) allocsiz minus_one in
    let disk = if frags == allocsiz then counted else add_frsum counted (allocsiz - frags) 1 in
    (Super.cgbase fs cg.cgx + bno, record g { disk = record disk { fs = record fs { fmod = 1 } } })

unfoldable pub on_frags : Group → ℕ → ℕ → Search → Option (ℕ × Group)
on_frags g frags allocsiz map_corrupted = none
on_frags g frags allocsiz not_in_map = none
on_frags g frags allocsiz (found bno frotor) =
    some (take_frags (record g { frotor = frotor }) bno frags allocsiz)

module _ (dblkno metaspace : ℕ) where
  abbrev pub cgmeta : Fs → ℕ → ℕ
  cgmeta fs c = Super.cgstart fs c + dblkno

  abbrev pub cgdata : Fs → ℕ → ℕ
  cgdata fs c = cgmeta fs c + metaspace

  -- The preference, moved into the zone of this group.
  pub zone : Group → ℕ → ℕ
  zone g bpref =
      let fs = g.disk.fs in
      let cgx = g.disk.cg.cgx in
      if bpref == 0
      then Super.cgbase fs cgx + g.rotor + fs.frag
      else if bpref / fs.fpg == cgx
      then bpref
      else if ltb bpref (cgdata fs (bpref / fs.fpg))
      then cgmeta fs cgx
      else cgdata fs cgx

  -- What follows the search; the rotor moves only in the data zone.
  unfoldable pub on_search : Group → ℕ → Search → Option (ℕ × Group)
  on_search g size map_corrupted = none
  on_search g size not_in_map = none
  on_search g size (found bno frotor) =
      let fs = g.disk.fs in
      let data_ = cgdata fs g.disk.cg.cgx % fs.fpg in
      some (
        gotit (record g { rotor = if leb data_ bno then bno else g.rotor; frotor = frotor }) bno
          size)

  unfoldable pub alloccgblk : Group → ℕ → ℕ → Option (ℕ × Group)
  alloccgblk g bpref size =
      let fs = g.disk.fs in
      let map = g.disk.cg.blksfree in
      let pref = zone g bpref in
      let bno = blknum fs pref % fs.fpg in
      if isblock fs.frag map (fragstoblks fs bno)
      then some (gotit g bno size)
      else on_search g size (mapsearch fs.frag fs.fpg map fs.frag g.frotor pref)

  -- A part of a block.
  pub alloc_part : Group → ℕ → ℕ → ℕ → Option (ℕ × Group)
  alloc_part g bpref size rsize =
      let fs = g.disk.fs in
      let cg = g.disk.cg in
      let frags = numfrags fs size in
      let allocsiz = first_size cg.frsum (fs.frag - frags) frags in
      if allocsiz == fs.frag
      then (if cg.cs.nbfree == 0 then some (0, g) else alloccgblk g bpref rsize)
      else on_frags g frags allocsiz (mapsearch fs.frag fs.fpg cg.blksfree allocsiz g.frotor bpref)

  -- `group` is what `ffs_getcg` gives, an error being `none`: the group `cg` in memory, with the
  -- summaries of `s`. With an allocation of 0 nothing changes.
  pub alloccg : (ℕ → Option Group) → Group → ℕ → ℕ → ℕ → ℕ → Option (ℕ × Group)
  alloccg getcg s cg bpref size rsize =
      if (fs_cs s.disk.csp cg).nbfree == 0 && size == s.disk.fs.bsize
      then some (0, s)
      else elim (getcg cg) [
        | none ↦ some (0, s)
        | some g ↦
            if size == g.disk.fs.bsize
            then (if g.disk.cg.cs.nbfree == 0 then some (0, g) else alloccgblk g bpref rsize)
            else alloc_part g bpref size rsize
      ]
