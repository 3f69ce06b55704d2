-- ===== src/Alloc/Group/Aligned.antt =====
-- The arithmetic of block addresses, and whole blocks as runs of free fragments, for the allocation of
-- ufsX/ufs/ffs/ffs_alloc.c.
use ufson_mac_os.Base.{ℕ, ◌+◌, ◌-◌, ◌*◌, ◌/◌, ◌%◌, ◌<◌, ◌≤◌, true, List, bit_and}
use ufson_mac_os.Base.{◌≡◌, sym, subst, ◌∙◌, arith}
use ufson_mac_os.Base.Bits.{
  all_below_sound, all_below_complete, bit_and-zero, bit_and-one, bit_and_three, bit_and_seven,
}
use native.Mathlib.Nat.{mul-mod_left}
use ufson_mac_os.Ffs.Block.{isblock}
use ufson_mac_os.Ffs.Block.Bytes.{isset}
use ufson_mac_os.Ffs.Block.Fragments.{IsFrag, AreBytes, frag_cases, isblock_lem}
use ufson_mac_os.Alloc.Mapsearch.Sift.{IsFreeRun}

pub aligned_lem : {frag : ℕ} (bno : ℕ) → IsFrag frag → bno % frag ≡ 0 → bno ≡ bno / frag * frag
aligned_lem bno known =
    frag_cases (λ f. bno % f ≡ 0 → bno ≡ bno / f * f) known (λ z. omega arith) (λ z. omega arith)
      (λ z. omega arith) (λ z. omega arith)

pub blknum_lem : {frag : ℕ} (x : ℕ) → IsFrag frag → (x - bit_and x (frag - 1)) % frag ≡ 0
blknum_lem x known =
    frag_cases (λ f. (x - bit_and x (f - 1)) % f ≡ 0) known (omega (arith, bit_and_seven x))
      (omega (arith, bit_and_three x)) (omega (arith, bit_and-one x))
      (omega (arith, bit_and-zero x))

pub room_lem : {frag : ℕ} (bno fpg : ℕ) → IsFrag frag → bno + frag ≤ fpg → bno / frag < fpg / frag
room_lem bno fpg known =
    frag_cases (λ f. bno + f ≤ fpg → bno / f < fpg / f) known (λ h. omega arith) (λ h. omega arith)
      (λ h. omega arith) (λ h. omega arith)

pub frag_pos : {frag : ℕ} → IsFrag frag → 1 ≤ frag
frag_pos known = ground arith

pub fits_lem :
    {frag : ℕ} (bno fpg : ℕ)
    → IsFrag frag
    → bno % frag ≡ 0
    → fpg % frag ≡ 0
    → bno < fpg
    → bno + frag ≤ fpg
fits_lem bno fpg known =
    frag_cases (λ f. bno % f ≡ 0 → fpg % f ≡ 0 → bno < fpg → bno + f ≤ fpg) known
      (λ z a lt. omega arith) (λ z a lt. omega arith) (λ z a lt. omega arith)
      (λ z a lt. omega arith)

-- A free block is a free run of `fs_frag` fragments, and such a run is a block.
module _ {frag : ℕ} (free : List ℕ) (known : IsFrag frag) (bytes : AreBytes free) where
  start_lem : (h : ℕ) → h * frag % frag ≡ 0
  start_lem h = mul-mod_left h frag

  pub block-IsFreeRun : (h : ℕ) → isblock frag free h ≡ true → IsFreeRun frag free frag (h * frag)
  block-IsFreeRun h e = record {
    one_block = rw (start_lem h) (omega arith);
    all_free = λ k lt.
        all_below_sound frag (λ k. isset free (h * frag + k)) k
          (sym (isblock_lem frag free h known bytes) ∙ e) lt;
    before = λ pos. absurd (omega (arith, start_lem h, pos));
    after = λ room. absurd (omega (arith, start_lem h, room));
  }

  pub run_isblock :
      (bno : ℕ)
      → IsFreeRun frag free frag bno
      → (bno ≡ bno / frag * frag) × (isblock frag free (bno / frag) ≡ true)
  run_isblock bno run =
      let fits = run.one_block in
      let e = aligned_lem bno known (omega arith) in
      (
        e,
        isblock_lem frag free (bno / frag) known bytes
            ∙ all_below_complete frag _
                (λ k lt. subst (λ t. isset free (t + k) ≡ true) e (run.all_free k lt)),
      )

-- A block of the group ends within its fragments.
pub block_end-le : {frag : ℕ} (h fpg : ℕ) → IsFrag frag → h < fpg / frag → h * frag + frag ≤ fpg
block_end-le h fpg known =
    frag_cases (λ f. h < fpg / f → h * f + f ≤ fpg) known (λ lt. omega arith) (λ lt. omega arith)
      (λ lt. omega arith) (λ lt. omega arith)
