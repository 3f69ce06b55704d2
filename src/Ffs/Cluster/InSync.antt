-- ===== src/Ffs/Cluster/InSync.antt =====
-- The invariant of the cluster map and its counts, and `ffs_clusteracct` on both of its branches.
use ufson_mac_os.Base.{ℕ, zero, suc, ◌+◌, ◌-◌, ◌*◌, ◌/◌, ◌%◌, ◌<◌, ◌≤◌, true, false, List}
use ufson_mac_os.Base.{
  ◌==◌, if◌then◌else◌, get_or, length, length-set, u32_mod, minus_one, ◌≡◌, ◌≢◌, arith, ap, refl,
  inl, inr, Bool-cases,
}
use mathlib.Core.Path.{ap₂}
use ufson_mac_os.Ffs.Block.Bytes.{isset}
use ufson_mac_os.Ffs.Block.Fragments.{AreBytes}
use ufson_mac_os.Ffs.Fragacct.Counts.{AreWords}
use ufson_mac_os.Ffs.Bitmap.{
  setbit, clrbit, setbit-AreBytes, clrbit-AreBytes, isset-setbit, isset-clrbit,
}
use ufson_mac_os.Ffs.Cluster.{
  Clusters, account, last_positive, is_positive, forw_size, back_size, clusteracct,
}
use ufson_mac_os.Ffs.Cluster.Walk.{run_up, run_down, forw_size_lem, back_size_lem}
use ufson_mac_os.Ffs.Cluster.Tally.{
  blocks, sized, tally, tally_of_join, run_up-min, run_down-min, run_up_cong, run_down_cong,
  tally-le, length-blocks,
}
use ufson_mac_os.Ffs.Cluster.Account.{account_lem, account-AreWords, length-account}

-- The number of free clusters of size `k`; a run longer than `c` counts for size `c`.
abbrev pub clusters : ℕ → List ℕ → ℕ → ℕ → ℕ
clusters c free nblks k = tally c k 0 (blocks (isset free) 0 nblks)

pub record InSync (c : ℕ) (cg : Clusters) : Type 0 where
  pub bytes : AreBytes cg.free
  pub words : AreWords cg.sum
  pub room : c < length cg.sum
  pub covers : cg.nblks ≤ length cg.free * 8
  pub small : cg.nblks < 0x80000000
  pub counts : (k : ℕ) → 1 ≤ k → k ≤ c → get_or cg.sum k 0 ≡ clusters c cg.free cg.nblks k

-- `m` is the size of a largest free cluster, or 0 if there is none.
pub record IsLargest (c : ℕ) (free : List ℕ) (nblks m : ℕ) : Type 0 where
  pub within : m ≤ c
  pub present : 0 < m → 0 < clusters c free nblks m
  pub last : (k : ℕ) → m < k → k ≤ c → clusters c free nblks k ≡ 0

clusters-lt : (c : ℕ) (free : List ℕ) (n k : ℕ) → n < 0x80000000 → clusters c free n k < 0x80000000
clusters-lt c free n k small =
    omega (arith, tally-le c k 0 (blocks (isset free) 0 n), length-blocks (isset free) 0 n)

last_positive-IsLargest :
    (c n : ℕ) (free sum : List ℕ) (nblks : ℕ)
    → nblks < 0x80000000
    → ((k : ℕ) → 1 ≤ k → k ≤ c → get_or sum k 0 ≡ clusters c free nblks k)
    → n ≤ c
    → ((k : ℕ) → n < k → k ≤ c → clusters c free nblks k ≡ 0)
    → IsLargest c free nblks (last_positive sum n)
unfolding last_positive
last_positive-IsLargest c zero free sum nblks small counts le above = record {
  within = omega arith;
  present = λ h. absurd (omega arith);
  last = above;
}
last_positive-IsLargest c (suc n) free sum nblks small counts le above =
    elim (Bool-cases (is_positive (get_or sum (suc n) 0))) [
      | inl e ↦
          rw (e, last_positive)
            (record {
              within = le;
              present = λ h. ground (arith, counts (suc n) (omega arith) le);
              last = above;
            })
      | inr e ↦
          let absent : clusters c free nblks (suc n) ≡ 0 =
            ground
              (arith, counts (suc n) (omega arith) le, clusters-lt c free nblks (suc n) small) in
          rw (e, last_positive)
            (last_positive-IsLargest c n free sum nblks small counts (omega arith)
              (λ k lt hi. ground (arith, above k, absent)))
    ]

-- The counts after an update, from those of the maps before and after.
module _ (c : ℕ) (cg : Clusters) (free : List ℕ) (b cnt k : ℕ) (s : InSync c cg)
    (bytes : AreBytes free) (lo : 1 ≤ k) (hi : k ≤ c) where
  abbrev sum' : List ℕ
  sum' = account c cg.sum (back_size c free b) (forw_size c free cg.nblks b) cnt

  sum_lem :
      (get_or sum' k 0
          + (sized c k (run_down (isset free) b b)
              + sized c k (run_up (isset free) (cg.nblks - (b + 1)) (b + 1)))
            * cnt)
        % u32_mod
      ≡ (get_or cg.sum k 0
          + sized c k
              (run_down (isset free) b b + 1 + run_up (isset free) (cg.nblks - (b + 1)) (b + 1))
            * cnt)
        % u32_mod
  sum_lem =
      rw
        (
          back_size_lem c free b bytes,
          forw_size_lem c free cg.nblks b bytes,
          run_down-min (isset free) c b b,
          run_up-min (isset free) c (cg.nblks - (b + 1)) (b + 1),
        )
        (account_lem c cg.sum (run_down (isset free) b b)
          (run_up (isset free) (cg.nblks - (b + 1)) (b + 1)) cnt k s.room s.words lo (omega arith))

-- The record that either branch returns.
module _ (c : ℕ) (cg : Clusters) (free : List ℕ) (b cnt : ℕ) (s : InSync c cg) (pos : 0 < c) where
  abbrev pub after : Clusters
  after = record cg {
    free = free;
    sum = account c cg.sum (back_size c free b) (forw_size c free cg.nblks b) cnt;
    maxcluster =
        last_positive (account c cg.sum (back_size c free b) (forw_size c free cg.nblks b) cnt) c;
  }

  after-InSync :
      AreBytes free
      → length free ≡ length cg.free
      → ((k : ℕ) → 1 ≤ k → k ≤ c → get_or after.sum k 0 ≡ clusters c free cg.nblks k)
      → InSync c after × IsLargest c free cg.nblks after.maxcluster
  after-InSync bytes same counts = (
    record {
      bytes = bytes;
      words =
          account-AreWords c cg.sum (back_size c free b) (forw_size c free cg.nblks b) cnt s.words;
      room = rw length-account s.room;
      covers = rw same s.covers;
      small = s.small;
      counts = counts;
    },
    last_positive-IsLargest c c free after.sum cg.nblks s.small counts (omega arith)
        (λ k lt hi. absurd (omega arith)),
  )

module _ (c : ℕ) (cg : Clusters) (b : ℕ) (s : InSync c cg) (pos : 0 < c) (inside : b < cg.nblks)
    (was : isset cg.free b ≡ false) where
  free_lem : clusteracct c cg b 1 ≡ after c cg (setbit cg.free b) b 1 s pos
  unfolding clusteracct
  free_lem = let nonzero : c == 0 ≡ false = ground arith in rw nonzero

  free_isset : (j : ℕ) → isset (setbit cg.free b) j ≡ (if j == b then true else isset cg.free j)
  free_isset j = let covers = s.covers in isset-setbit cg.free b s.bytes j (omega arith)

  free_now : isset (setbit cg.free b) b ≡ true
  free_now = ground (arith, free_isset b)

  free_same : (j : ℕ) → j ≢ b → isset (setbit cg.free b) j ≡ isset cg.free j
  free_same j ne = ground (arith, free_isset j)

  free_counts :
      (k : ℕ)
      → 1 ≤ k
      → k ≤ c
      → get_or (after c cg (setbit cg.free b) b 1 s pos).sum k 0
        ≡ clusters c (setbit cg.free b) cg.nblks k
  free_counts k lo hi = omega (
    arith,
    s.counts k lo hi,
    clusters-lt c (setbit cg.free b) cg.nblks k s.small,
    account-AreWords c cg.sum (back_size c (setbit cg.free b) b)
        (forw_size c (setbit cg.free b) cg.nblks b) 1 s.words k,
    sum_lem c cg (setbit cg.free b) b 1 k s (setbit-AreBytes cg.free b s.bytes) lo hi,
    tally_of_join c k (isset (setbit cg.free b)) (isset cg.free) cg.nblks b inside free_now was
        free_same,
  )

  -- Freeing block `b`: if the counts agree with the map, the block is one of the group and is in
  -- use in the cluster map, then after `ffs_clusteracct` with 1 the counts agree with the map again,
  -- the map has gained just block `b`, and `fs_maxcluster` is the size of a largest free cluster.
  pub clusteracct_free :
      InSync c (clusteracct c cg b 1)
      × IsLargest c (setbit cg.free b) cg.nblks (clusteracct c cg b 1).maxcluster
      × ((clusteracct c cg b 1).free ≡ (setbit cg.free b))
  clusteracct_free =
      let (sync, largest) =
        after-InSync c cg (setbit cg.free b) b 1 s pos (setbit-AreBytes cg.free b s.bytes)
          (length-set cg.free (b / 8) _) free_counts in
      rw free_lem (sync, largest, refl)

module _ (c : ℕ) (cg : Clusters) (b : ℕ) (s : InSync c cg) (pos : 0 < c) (inside : b < cg.nblks)
    (was : isset cg.free b ≡ true) where
  alloc_lem : clusteracct c cg b minus_one ≡ after c cg (clrbit cg.free b) b minus_one s pos
  unfolding clusteracct
  alloc_lem = let nonzero : c == 0 ≡ false = ground arith in rw nonzero

  alloc_isset : (j : ℕ) → isset (clrbit cg.free b) j ≡ (if j == b then false else isset cg.free j)
  alloc_isset j = let covers = s.covers in isset-clrbit cg.free b s.bytes j (omega arith)

  alloc_now : isset (clrbit cg.free b) b ≡ false
  alloc_now = ground (arith, alloc_isset b)

  alloc_same : (j : ℕ) → j ≢ b → isset cg.free j ≡ isset (clrbit cg.free b) j
  alloc_same j ne = ground (arith, alloc_isset j)

  alloc_counts :
      (k : ℕ)
      → 1 ≤ k
      → k ≤ c
      → get_or (after c cg (clrbit cg.free b) b minus_one s pos).sum k 0
        ≡ clusters c (clrbit cg.free b) cg.nblks k
  alloc_counts k lo hi =
      let downs : run_down (isset cg.free) b b ≡ run_down (isset (clrbit cg.free b)) b b =
        run_down_cong (isset cg.free) (isset (clrbit cg.free b)) b b b (omega arith) (omega arith)
          alloc_same in
      let ups : run_up (isset cg.free) (cg.nblks - (b + 1)) (b + 1)
          ≡ run_up (isset (clrbit cg.free b)) (cg.nblks - (b + 1)) (b + 1) =
        run_up_cong (isset cg.free) (isset (clrbit cg.free b)) (cg.nblks - (b + 1)) (b + 1) b
          (omega arith) alloc_same in
      omega (
        arith,
        s.counts k lo hi,
        clusters-lt c (clrbit cg.free b) cg.nblks k s.small,
        account-AreWords c cg.sum (back_size c (clrbit cg.free b) b)
            (forw_size c (clrbit cg.free b) cg.nblks b) minus_one s.words k,
        sum_lem c cg (clrbit cg.free b) b minus_one k s (clrbit-AreBytes cg.free b s.bytes) lo hi,
        tally_of_join c k (isset cg.free) (isset (clrbit cg.free b)) cg.nblks b inside was alloc_now
            alloc_same,
        ap (sized c k) downs,
        ap (sized c k) ups,
        ap₂ (λ x y. sized c k (x + 1 + y)) downs ups,
      )

  -- Allocating block `b`: if the counts agree with the map, the block is one of the group and is
  -- free in the cluster map, then after `ffs_clusteracct` with -1 the counts agree with the map
  -- again, the map has lost just block `b`, and `fs_maxcluster` is the size of a largest free
  -- cluster, or 0 if none is left.
  pub clusteracct_alloc :
      InSync c (clusteracct c cg b minus_one)
      × IsLargest c (clrbit cg.free b) cg.nblks (clusteracct c cg b minus_one).maxcluster
      × ((clusteracct c cg b minus_one).free ≡ (clrbit cg.free b))
  clusteracct_alloc =
      let (sync, largest) =
        after-InSync c cg (clrbit cg.free b) b minus_one s pos (clrbit-AreBytes cg.free b s.bytes)
          (length-set cg.free (b / 8) _) alloc_counts in
      rw alloc_lem (sync, largest, refl)
