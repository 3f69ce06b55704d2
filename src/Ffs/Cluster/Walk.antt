-- ===== src/Ffs/Cluster/Walk.antt =====
-- The byte-wise loops of `ffs_clusteracct` of ufsX/ufs/ffs/ffs_subr.c, and the runs of free blocks
-- next to a block.
use ufson_mac_os.Base.{
  ℕ, zero, suc, ◌+◌, ◌-◌, ◌*◌, ◌/◌, ◌%◌, ◌^◌, ◌<◌, ◌≤◌, Bool, not, List, bit_and,
}
use ufson_mac_os.Base.{
  leb, ◌==◌, if◌then◌else◌, get_or, ◌<<<◌, ◌>>>◌, ◌≡◌, ◌≢◌, refl, arith, min, inl, inr, Bool-cases,
}
use native.Mathlib.Nat.{pow-suc}
use ufson_mac_os.Base.Bits.{all_below, bit_and_seven}
use ufson_mac_os.Ffs.Block.Bytes.{bit, isset, all_clear1}
use ufson_mac_os.Ffs.Block.Fragments.{AreBytes}
use ufson_mac_os.Ffs.Cluster.{forward, backward, forw_size, back_size}

-- How many of the `n` blocks from `i` on are free before the first that is not.
unfoldable pub run_up : (ℕ → Bool) → ℕ → ℕ → ℕ
run_up f zero i = 0
run_up f (suc n) i = if f i then suc (run_up f n (i + 1)) else 0

-- How many of the `n` blocks below `j` are free before the first that is not.
unfoldable pub run_down : (ℕ → Bool) → ℕ → ℕ → ℕ
run_down f zero j = 0
run_down f (suc n) j = if f (j - 1) then suc (run_down f n (j - 1)) else 0

-- A test by a one-bit mask.
pub bit_and-bit : (b k : ℕ) → b < 256 → k < 8 → bit_and b (2 ^ k) == 0 ≡ not (bit b k)
unfolding all_below
bit_and-bit b k hb hk = ground (arith, all_clear1 k b hb hk)

pow-add-one : (k : ℕ) → 2 ^ (k + 1) ≡ 2 ^ k * 2
pow-add-one k = let e : k + 1 ≡ suc k = omega arith in rw e (omega (arith, pow-suc 2 k))

shift_up : (k : ℕ) → 1 <<< k <<< 1 ≡ 1 <<< (k + 1)
shift_up k = omega (arith, pow-add-one k)

shift_down : (k : ℕ) → 1 <<< (k + 1) >>> 1 ≡ 1 <<< k
shift_down k = omega (arith, pow-add-one k)

module _ (free : List ℕ) (bytes : AreBytes free) where
  forward_step :
      (left i : ℕ)
      → (if bit_and i 7 == 7
          then forward free left (i + 1) (i / 8 + 1 + 1) (get_or free (i / 8 + 1) 0) 1
          else forward free left (i + 1) (i / 8 + 1) (get_or free (i / 8) 0) (1 <<< (i % 8) <<< 1))
        ≡ forward free left
            (i + 1)
            ((i + 1) / 8 + 1)
            (get_or free ((i + 1) / 8) 0)
            (1 <<< ((i + 1) % 8))
  forward_step left i = elim (Bool-cases (bit_and i 7 == 7)) [
    | inl e ↦
        let last : i % 8 ≡ 7 = ground (arith, bit_and_seven i) in
        let q : (i + 1) / 8 ≡ i / 8 + 1 = omega arith in
        let r : (i + 1) % 8 ≡ 0 = omega arith in rw (e, q, r)
    | inr e ↦
        let inner : i % 8 ≢ 7 = ground (arith, bit_and_seven i) in
        let q : (i + 1) / 8 ≡ i / 8 = omega arith in
        let r : (i + 1) % 8 ≡ i % 8 + 1 = omega arith in rw (e, q, r, shift_up (i % 8))
  ]

  forward_lem :
      (left i : ℕ)
      → forward free left i (i / 8 + 1) (get_or free (i / 8) 0) (1 <<< (i % 8))
        ≡ i + run_up (isset free) left i
  unfolding forward run_up
  forward_lem zero i = omega arith
  forward_lem (suc left) i = ground (
    arith,
    bit_and-bit (get_or free (i / 8) 0) (i % 8) (bytes (i / 8)),
    forward_step left i,
    forward_lem left (i + 1),
  )

  backward_zero : (j mapp map bit : ℕ) → backward free 0 j mapp map bit ≡ j
  unfolding backward
  backward_zero j mapp map bit = refl

  backward_step :
      (left i : ℕ)
      → left ≤ i
      → (if bit_and i 7 == 0
          then backward free left i (i / 8 - 1) (get_or free (i / 8 - 1) 0) (1 <<< 7)
          else backward free left i (i / 8) (get_or free (i / 8) 0) (1 <<< (i % 8) >>> 1))
        ≡ backward free left i ((i - 1) / 8) (get_or free ((i - 1) / 8) 0) (1 <<< ((i - 1) % 8))
  backward_step zero i h = ground (
    arith,
    backward_zero i (i / 8 - 1) (get_or free (i / 8 - 1) 0) (1 <<< 7),
    backward_zero i (i / 8) (get_or free (i / 8) 0) (1 <<< (i % 8) >>> 1),
    backward_zero i ((i - 1) / 8) (get_or free ((i - 1) / 8) 0) (1 <<< ((i - 1) % 8)),
  )
  backward_step (suc left) i h = elim (Bool-cases (bit_and i 7 == 0)) [
    | inl e ↦
        let last : i % 8 ≡ 0 = ground (arith, bit_and_seven i) in
        let q : (i - 1) / 8 ≡ i / 8 - 1 = omega arith in
        let r : (i - 1) % 8 ≡ 7 = omega arith in rw (e, q, r)
    | inr e ↦
        let inner : i % 8 ≢ 0 = ground (arith, bit_and_seven i) in
        let q : (i - 1) / 8 ≡ i / 8 = omega arith in
        let r : i % 8 ≡ (i - 1) % 8 + 1 = omega arith in rw (e, q, r, shift_down ((i - 1) % 8))
  ]

  backward_lem :
      (left j : ℕ)
      → left ≤ j
      → backward free left j ((j - 1) / 8) (get_or free ((j - 1) / 8) 0) (1 <<< ((j - 1) % 8))
        ≡ j - run_down (isset free) left j
  unfolding backward run_down
  backward_lem zero j h = omega arith
  backward_lem (suc left) j h = ground (
    arith,
    bit_and-bit (get_or free ((j - 1) / 8) 0) ((j - 1) % 8) (bytes ((j - 1) / 8)),
    backward_step left (j - 1) (omega arith),
    backward_lem left (j - 1),
  )

-- With every byte a byte, the loop over bytes and masks finds the free blocks that follow.
pub forw_size_lem :
    (contigsumsize : ℕ) (free : List ℕ) (nblks blkno : ℕ)
    → AreBytes free
    → forw_size contigsumsize free nblks blkno
      ≡ run_up (isset free) (min contigsumsize (nblks - (blkno + 1))) (blkno + 1)
unfolding forw_size
forw_size_lem contigsumsize free nblks blkno bytes =
    let rounds : (if leb nblks (blkno + 1 + contigsumsize)
            then nblks
            else blkno + 1 + contigsumsize)
          - (blkno + 1)
        ≡ min contigsumsize (nblks - (blkno + 1)) =
      ground arith in
    rw (rounds, forward_lem free bytes (min contigsumsize (nblks - (blkno + 1))) (blkno + 1))
      (omega arith)

run_down-le : (f : ℕ → Bool) (n j : ℕ) → run_down f n j ≤ n
unfolding run_down
run_down-le f zero j = omega arith
run_down-le f (suc n) j = ground (arith, run_down-le f n (j - 1))

pub back_size_lem :
    (contigsumsize : ℕ) (free : List ℕ) (blkno : ℕ)
    → AreBytes free
    → back_size contigsumsize free blkno ≡ run_down (isset free) (min contigsumsize blkno) blkno
unfolding back_size
back_size_lem contigsumsize free blkno bytes =
    let rounds : blkno - (blkno - contigsumsize) ≡ min contigsumsize blkno = omega arith in
    rw (rounds, backward_lem free bytes (min contigsumsize blkno) blkno (omega arith))
      (omega (arith, run_down-le (isset free) (min contigsumsize blkno) blkno))
