-- ===== src/Libufs/Cgroup/Blocks.antt =====
-- What it means that the map of a group, its clusters and the three counts of free blocks agree, and
-- the allocation of a block by `cgballoc` of libufs/cgroup.c.
use ufson_mac_os.Base.{ℕ, suc, ◌*◌, ◌/◌, ◌%◌, ◌^◌, ◌<◌, ◌≤◌, true, List}
use ufson_mac_os.Base.{
  Bool-cases, ◌≡◌, ◌≢◌, subst, ap, ◌∙◌, arith, inl, inr, ◌==◌, set, length, length-set, sub32,
  minus_one,
}
use ufson_mac_os.Base.Count.{count_below, count_below-le, count_below_less}
use ufson_mac_os.Ffs.Block.{isblock, clrblock}
use ufson_mac_os.Ffs.Block.Bytes.{isset}
use ufson_mac_os.Ffs.Block.Fragments.{IsFrag, AreBytes}
use ufson_mac_os.Ffs.Block.Whole.{
  clrblock-AreBytes, length-clrblock, isblock-clrblock_same, isblock-clrblock_other,
}
use ufson_mac_os.Ffs.Bitmap.{clrbit, isset-clrbit}
use ufson_mac_os.Ffs.Cluster.{clusteracct}
use ufson_mac_os.Ffs.Cluster.Account.{nblks-clusteracct}
use ufson_mac_os.Ffs.Cluster.InSync.{InSync, IsLargest, clusteracct_alloc}
use ufson_mac_os.Libufs.Disk.{Csum, Uufsd}
use ufson_mac_os.Libufs.Cgroup.{fs_cs, u64_mod, sub64, less_block, take_block}
use ufson_mac_os.Libufs.Cgroup.Sums.{sum_cs, sum_cs-set, fs_cs-le, fs_cs-set}

-- The number of whole blocks of a group.
abbrev pub nblocks : Uufsd → ℕ
nblocks disk = disk.fs.fpg / disk.fs.frag

abbrev pub nbfree_of : Csum → ℕ
nbfree_of cs = cs.nbfree

-- The geometry is one that newfs makes.
pub record IsGeometry (disk : Uufsd) : Type 0 where
  pub known : IsFrag disk.fs.frag
  pub shift : 2 ^ disk.fs.fragshift ≡ disk.fs.frag
  pub small : disk.fs.fpg < 0x80000000
  pub clustered : 0 < disk.fs.contigsumsize

-- The maps and the counts of free blocks say the same.
pub record BlocksAgree (disk : Uufsd) : Type 0 where
  pub bytes : AreBytes disk.cg.blksfree
  pub covers : disk.fs.fpg ≤ length disk.cg.blksfree * 8
  pub own : disk.cg.cgx < length disk.csp
  pub counted :
      disk.cg.cs.nbfree ≡ count_below (nblocks disk) (isblock disk.fs.frag disk.cg.blksfree)
  pub summary : (fs_cs disk.csp disk.cg.cgx).nbfree ≡ disk.cg.cs.nbfree
  pub total : disk.cstotal.nbfree ≡ sum_cs nbfree_of disk.csp % u64_mod
  pub sync : InSync disk.fs.contigsumsize disk.cg.clusters
  pub nclusters : disk.cg.clusters.nblks ≡ nblocks disk
  pub bits :
      (h : ℕ)
      → h < nblocks disk
      → isset disk.cg.clusters.free h ≡ isblock disk.fs.frag disk.cg.blksfree h

-- A block of the group starts within its fragments.
pub start_lem : (frag fpg h : ℕ) → IsFrag frag → h < fpg / frag → h * frag < fpg
start_lem frag fpg h (inl e) lt = rw e (omega (arith, rw e at lt))
start_lem frag fpg h (inr (inl e)) lt = rw e (omega (arith, rw e at lt))
start_lem frag fpg h (inr (inr (inl e))) lt = rw e (omega (arith, rw e at lt))
start_lem frag fpg h (inr (inr (inr e))) lt = rw e (omega (arith, rw e at lt))

pub blocks-le : (frag fpg : ℕ) → IsFrag frag → fpg / frag ≤ fpg
blocks-le frag fpg (inl e) = rw e (omega arith)
blocks-le frag fpg (inr (inl e)) = rw e (omega arith)
blocks-le frag fpg (inr (inr (inl e))) = rw e (omega arith)
blocks-le frag fpg (inr (inr (inr e))) = rw e (omega arith)

module _ (disk : Uufsd) (geo : IsGeometry disk) (agree : BlocksAgree disk) (h : ℕ)
    (below : h < nblocks disk) (holds : isblock disk.fs.frag disk.cg.blksfree h ≡ true) where
  abbrev frag : ℕ
  frag = disk.fs.frag

  abbrev map : List ℕ
  map = disk.cg.blksfree

  abbrev left : List ℕ
  left = clrblock frag map h

  pub inside : h * frag < length map * 8
  inside = omega (arith, start_lem frag disk.fs.fpg h geo.known below, agree.covers)

  fewer :
      count_below (nblocks disk) (isblock frag map)
      ≡ suc (count_below (nblocks disk) (isblock frag left))
  fewer =
      count_below_less (nblocks disk) h (isblock frag map) (isblock frag left) below holds
        (isblock-clrblock_same frag map h geo.known agree.bytes inside)
        (λ i ne lt. isblock-clrblock_other frag map h geo.known agree.bytes inside i ne)

  -- The count of the group after the allocation.
  counted_lem : sub32 disk.cg.cs.nbfree 1 ≡ count_below (nblocks disk) (isblock frag left)
  counted_lem = omega (
    arith,
    agree.counted,
    fewer,
    geo.small,
    blocks-le frag disk.fs.fpg geo.known,
    count_below-le (nblocks disk) (isblock frag map),
  )

  summary_lem : (less_block (fs_cs disk.csp disk.cg.cgx)).nbfree ≡ (less_block disk.cg.cs).nbfree
  summary_lem = ap (λ n. sub32 n 1) agree.summary

  total_lem :
      sub64 disk.cstotal.nbfree 1
      ≡ sum_cs nbfree_of (set disk.csp disk.cg.cgx (less_block (fs_cs disk.csp disk.cg.cgx)))
        % u64_mod
  total_lem = omega (
    arith,
    agree.total,
    agree.counted,
    agree.summary,
    fewer,
    summary_lem,
    counted_lem,
    fs_cs-le nbfree_of disk.csp disk.cg.cgx agree.own,
    sum_cs-set nbfree_of disk.csp disk.cg.cgx (less_block (fs_cs disk.csp disk.cg.cgx)) agree.own,
  )

  was_free : isset disk.cg.clusters.free h ≡ true
  was_free = agree.bits h below ∙ holds

  within : h < disk.cg.clusters.nblks
  within = omega (arith, agree.nclusters, below)

  after :
      InSync disk.fs.contigsumsize (clusteracct disk.fs.contigsumsize disk.cg.clusters h minus_one)
      × IsLargest disk.fs.contigsumsize
          (clrbit disk.cg.clusters.free h)
          disk.cg.clusters.nblks
          (clusteracct disk.fs.contigsumsize disk.cg.clusters h minus_one).maxcluster
      × ((clusteracct disk.fs.contigsumsize disk.cg.clusters h minus_one).free
          ≡ clrbit disk.cg.clusters.free h)
  after =
      clusteracct_alloc disk.fs.contigsumsize disk.cg.clusters h agree.sync geo.clustered within
        was_free

  bits_lem :
      (i : ℕ) → i < nblocks disk → isset (clrbit disk.cg.clusters.free h) i ≡ isblock frag left i
  bits_lem i lt =
      let (sync, largest, moved) = after in
      let covers = agree.sync.covers in
      let whole = isset-clrbit disk.cg.clusters.free h agree.sync.bytes i (omega (arith, within)) in
      elim (Bool-cases (i == h)) [
        | inl e ↦
            let at : h ≡ i = ground arith in
            subst (λ t. isset (clrbit disk.cg.clusters.free h) t ≡ isblock frag left t) at
              (ground (
                arith,
                isset-clrbit disk.cg.clusters.free h agree.sync.bytes h (omega (arith, within)),
                isblock-clrblock_same frag map h geo.known agree.bytes inside,
              ))
        | inr e ↦
            let off : i ≢ h = ground arith in
            ground (
              arith,
              whole,
              agree.bits i lt,
              isblock-clrblock_other frag map h geo.known agree.bytes inside i off,
            )
      ]

  pub take_block-BlocksAgree : BlocksAgree (take_block disk h)
  unfolding take_block
  take_block-BlocksAgree =
      let (sync, largest, moved) = after in
      record {
        bytes = clrblock-AreBytes frag map h geo.known agree.bytes;
        covers = rw (length-clrblock frag map h geo.known) agree.covers;
        own = rw length-set agree.own;
        counted = counted_lem;
        summary =
            ap (λ (cs : Csum). cs.nbfree) (fs_cs-set disk.csp disk.cg.cgx _ agree.own)
            ∙ summary_lem;
        total = total_lem;
        sync = sync;
        nclusters =
            nblks-clusteracct disk.fs.contigsumsize disk.cg.clusters h minus_one ∙ agree.nclusters;
        bits = λ i lt. ap (λ f. isset f i) moved ∙ bits_lem i lt;
      }
