-- ===== src/Libufs/Cgroup/Free/Whole.antt =====
-- The freeing of a whole block by `cgbfree` of libufs/cgroup.c, on the map of its group, the clusters
-- and the three counts of free blocks.
use ufson_mac_os.Base.{ℕ, suc, ◌*◌, ◌/◌, ◌%◌, ◌<◌, true, false, List}
use ufson_mac_os.Base.{
  Bool-cases, ◌≡◌, ◌≢◌, sym, subst, ap, ◌∙◌, arith, inl, inr, ◌==◌, if◌then◌else◌, set, length,
  length-set, add32,
}
use ufson_mac_os.Base.Count.{count_below, count_below-le, count_below_less}
use ufson_mac_os.Ffs.Block.{isblock, setblock}
use ufson_mac_os.Ffs.Block.Bytes.{isset}
use ufson_mac_os.Ffs.Block.Update.{isset-setblock}
use ufson_mac_os.Ffs.Block.Whole.{
  setblock-AreBytes, length-setblock, isblock-setblock_same, isblock-setblock_other,
}
use ufson_mac_os.Ffs.Bitmap.{setbit, isset-setbit}
use ufson_mac_os.Ffs.Cluster.{clusteracct}
use ufson_mac_os.Ffs.Cluster.Account.{nblks-clusteracct}
use ufson_mac_os.Ffs.Cluster.InSync.{InSync, IsLargest, clusteracct_free}
use ufson_mac_os.Libufs.Disk.{Csum, Uufsd}
use ufson_mac_os.Libufs.Cgroup.{fs_cs, u64_mod, add64}
use ufson_mac_os.Libufs.Cgroup.Free.{more_block, count_block, free_block}
use ufson_mac_os.Libufs.Cgroup.Sums.{sum_cs, sum_cs-set, fs_cs-le, fs_cs-set}
use ufson_mac_os.Libufs.Cgroup.Blocks.{
  nblocks, nbfree_of, IsGeometry, BlocksAgree, start_lem, blocks-le,
}

module _ (disk : Uufsd) (geo : IsGeometry disk) (agree : BlocksAgree disk) (h : ℕ)
    (below : h < nblocks disk) (used : isblock disk.fs.frag disk.cg.blksfree h ≡ false) where
  abbrev frag : ℕ
  frag = disk.fs.frag

  abbrev map : List ℕ
  map = disk.cg.blksfree

  abbrev freed : List ℕ
  freed = setblock frag map h

  inside : h * frag < length map * 8
  inside = omega (arith, start_lem frag disk.fs.fpg h geo.known below, agree.covers)

  more :
      count_below (nblocks disk) (isblock frag freed)
      ≡ suc (count_below (nblocks disk) (isblock frag map))
  more =
      count_below_less (nblocks disk) h (isblock frag freed) (isblock frag map) below
        (isblock-setblock_same frag map h geo.known agree.bytes inside) used
        (λ i ne lt. sym (isblock-setblock_other frag map h geo.known agree.bytes inside i ne))

  counted_lem : add32 disk.cg.cs.nbfree 1 ≡ count_below (nblocks disk) (isblock frag freed)
  counted_lem = omega (
    arith,
    agree.counted,
    more,
    geo.small,
    blocks-le frag disk.fs.fpg geo.known,
    count_below-le (nblocks disk) (isblock frag freed),
  )

  summary_lem : (more_block (fs_cs disk.csp disk.cg.cgx)).nbfree ≡ (more_block disk.cg.cs).nbfree
  summary_lem = ap (λ n. add32 n 1) agree.summary

  total_lem :
      add64 disk.cstotal.nbfree 1
      ≡ sum_cs nbfree_of (set disk.csp disk.cg.cgx (more_block (fs_cs disk.csp disk.cg.cgx)))
        % u64_mod
  total_lem = omega (
    arith,
    agree.total,
    agree.counted,
    agree.summary,
    more,
    summary_lem,
    counted_lem,
    fs_cs-le nbfree_of disk.csp disk.cg.cgx agree.own,
    sum_cs-set nbfree_of disk.csp disk.cg.cgx (more_block (fs_cs disk.csp disk.cg.cgx)) agree.own,
  )

  was_used : isset disk.cg.clusters.free h ≡ false
  was_used = agree.bits h below ∙ used

  within : h < disk.cg.clusters.nblks
  within = omega (arith, agree.nclusters, below)

  after :
      InSync disk.fs.contigsumsize (clusteracct disk.fs.contigsumsize disk.cg.clusters h 1)
      × IsLargest disk.fs.contigsumsize
          (setbit disk.cg.clusters.free h)
          disk.cg.clusters.nblks
          (clusteracct disk.fs.contigsumsize disk.cg.clusters h 1).maxcluster
      × ((clusteracct disk.fs.contigsumsize disk.cg.clusters h 1).free
          ≡ setbit disk.cg.clusters.free h)
  after =
      clusteracct_free disk.fs.contigsumsize disk.cg.clusters h agree.sync geo.clustered within
        was_used

  bit_lem :
      (i : ℕ)
      → isset (setbit disk.cg.clusters.free h) i
        ≡ (if i == h then true else isset disk.cg.clusters.free i)
  bit_lem i =
      let covers = agree.sync.covers in
      isset-setbit disk.cg.clusters.free h agree.sync.bytes i (omega (arith, within))

  bits_lem :
      (i : ℕ) → i < nblocks disk → isset (setbit disk.cg.clusters.free h) i ≡ isblock frag freed i
  bits_lem i lt = elim (Bool-cases (i == h)) [
    | inl e ↦
        let at : h ≡ i = ground arith in
        subst (λ t. isset (setbit disk.cg.clusters.free h) t ≡ isblock frag freed t) at
          (ground (arith, bit_lem h, isblock-setblock_same frag map h geo.known agree.bytes inside))
    | inr e ↦
        let off : i ≢ h = ground arith in
        ground (
          arith,
          bit_lem i,
          agree.bits i lt,
          isblock-setblock_other frag map h geo.known agree.bytes inside i off,
        )
  ]

  -- If the maps and counts agree, and block `h` of the group is not free, then freeing it whole, as
  -- `cgbfree` does once it has read the group, leaves them in agreement, and has put exactly the
  -- fragments of that block into the map.
  pub free_block-BlocksAgree :
      BlocksAgree (free_block disk disk.cg.cgx h)
      × ((j : ℕ)
          → isset (free_block disk disk.cg.cgx h).cg.blksfree j
            ≡ (if j / disk.fs.frag == h then true else isset disk.cg.blksfree j))
  unfolding free_block count_block
  free_block-BlocksAgree =
      let (sync, largest, moved) = after in
      (
        record {
          bytes = setblock-AreBytes frag map h geo.known agree.bytes;
          covers = rw (length-setblock frag map h geo.known) agree.covers;
          own = rw length-set agree.own;
          counted = counted_lem;
          summary =
              ap (λ (cs : Csum). cs.nbfree) (fs_cs-set disk.csp disk.cg.cgx _ agree.own)
              ∙ summary_lem;
          total = total_lem;
          sync = sync;
          nclusters =
              nblks-clusteracct disk.fs.contigsumsize disk.cg.clusters h 1 ∙ agree.nclusters;
          bits = λ i lt. ap (λ f. isset f i) moved ∙ bits_lem i lt;
        },
        λ j. isset-setblock frag map h j geo.known agree.bytes inside,
      )
