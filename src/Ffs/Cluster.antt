-- ===== src/Ffs/Cluster.antt =====
-- `ffs_clusteracct` of ufsX/ufs/ffs/ffs_subr.c, which keeps the map of free blocks and the counts of
-- the free clusters of a cylinder group. Blocks are not negative. The code keeps a pointer, a byte
-- and a one-bit mask beside its index, and so do the loops here. The backward loop may load the
-- byte before the map when it reaches block 0; it never tests that byte, and the model loads
-- byte 0 in its place. With block 0 itself the code shifts by -1 to make a mask that it does not
-- use; the model has a mask of 1 there.
pub mod Walk
pub mod Tally
pub mod Account
pub mod InSync
use ufson_mac_os.Base.{ℕ, zero, suc, ◌+◌, ◌-◌, ◌/◌, ◌%◌, Bool, true, false, ◌&&◌, List, bit_and}
use ufson_mac_os.Ffs.Bitmap.{setbit, clrbit}
use ufson_mac_os.Base.{ltb, leb, ◌==◌, if◌then◌else◌, get_or, set, add32, sub32, ◌<<<◌, ◌>>>◌}

-- The parts of `struct cg` and of the summary that the routine reads and writes.
pub record Clusters : Type 0 where
  -- the bytes from `cg_clustersfree` on
  pub free : List ℕ
  -- the words from `cg_clustersum` on, by cluster size; entry 0 is not used
  pub sum : List ℕ
  -- `cg_nclusterblks`
  pub nblks : ℕ
  -- `fs_maxcluster[cg_cgx]`
  pub maxcluster : ℕ

-- `cnt > 0`
abbrev pub is_positive : ℕ → Bool
is_positive x = ltb 0 x && ltb x 0x80000000

module _ (free : List ℕ) where
  -- `for (i = start; i < end; i++)`, with `left` rounds to go: the index at which it stops.
  pub forward : ℕ → ℕ → ℕ → ℕ → ℕ → ℕ
  forward zero i mapp map bit = i
  forward (suc left) i mapp map bit = elim (bit_and map bit == 0) [
    | true ↦ i
    | false ↦ elim (bit_and i 7 == 7) [
      | false ↦ forward left (i + 1) mapp map (bit <<< 1)
      | true ↦ forward left (i + 1) (mapp + 1) (get_or free mapp 0) 1
    ]
  ]

  -- `for (i = start; i > end; i--)`; `j` is `i + 1`, and `mapp` is one more than the index of the
  -- byte that the pointer is at.
  pub backward : ℕ → ℕ → ℕ → ℕ → ℕ → ℕ
  backward zero j mapp map bit = j
  backward (suc left) j mapp map bit = elim (bit_and map bit == 0) [
    | true ↦ j
    | false ↦ elim (bit_and (j - 1) 7 == 0) [
      | false ↦ backward left (j - 1) mapp map (bit >>> 1)
      | true ↦ backward left (j - 1) (mapp - 1) (get_or free (mapp - 1) 0) (1 <<< 7)
    ]
  ]

-- The size of the cluster after block `blkno`, and of the one before it.
pub forw_size : ℕ → List ℕ → ℕ → ℕ → ℕ
forw_size contigsumsize free nblks blkno =
    let start = blkno + 1 in
    let end = if leb nblks (start + contigsumsize) then nblks else start + contigsumsize in
    forward free (end - start) start (start / 8 + 1) (get_or free (start / 8) 0) (1 <<< (start % 8))
    - start

pub back_size : ℕ → List ℕ → ℕ → ℕ
back_size contigsumsize free blkno =
    let start = blkno - 1 in
    let end = blkno - contigsumsize in
    blkno
    - backward free (blkno - end) blkno (start / 8) (get_or free (start / 8) 0) (1 <<< (start % 8))

-- `for (i = fs->fs_contigsumsize; i > 0; i--) if (*lp-- > 0) break;`
pub last_positive : List ℕ → ℕ → ℕ
last_positive sum zero = 0
last_positive sum (suc i) = elim (is_positive (get_or sum (suc i) 0)) [
  | true ↦ suc i
  | false ↦ last_positive sum i
]

abbrev pub sum_add : List ℕ → ℕ → ℕ → List ℕ
sum_add sum i cnt = set sum i (add32 (get_or sum i 0) cnt)

abbrev pub sum_sub : List ℕ → ℕ → ℕ → List ℕ
sum_sub sum i cnt = set sum i (sub32 (get_or sum i 0) cnt)

-- The counts, from the sizes on both sides.
pub account : ℕ → List ℕ → ℕ → ℕ → ℕ → List ℕ
account contigsumsize sum back forw cnt =
    let i = if ltb contigsumsize (back + forw + 1) then contigsumsize else back + forw + 1 in
    let s1 = sum_add sum i cnt in
    let s2 = if ltb 0 back then sum_sub s1 back cnt else s1 in
    if ltb 0 forw then sum_sub s2 forw cnt else s2

pub clusteracct : ℕ → Clusters → ℕ → ℕ → Clusters
clusteracct contigsumsize cg blkno cnt =
    if contigsumsize == 0
    then cg
    else let free = if is_positive cnt then setbit cg.free blkno else clrbit cg.free blkno in
      let forw = forw_size contigsumsize free cg.nblks blkno in
      let back = back_size contigsumsize free blkno in
      let sum = account contigsumsize cg.sum back forw cnt in
      record cg { free = free; sum = sum; maxcluster = last_positive sum contigsumsize }
