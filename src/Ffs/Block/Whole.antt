-- ===== src/Ffs/Block/Whole.antt =====
-- What `ffs_clrblock` and `ffs_setblock` of ufsX/ufs/ffs/ffs_subr.c do to the map as a set of blocks.
use native.Mathlib.Nat.{add-mul-div_right, div-eq_of_lt}
use ufson_mac_os.Base.{ℕ, ◌+◌, ◌-◌, ◌*◌, ◌/◌, ◌<◌, true, false, List, inl, inr, bit_and}
use ufson_mac_os.Base.{◌≡◌, ◌≢◌, ap, sym, ◌∙◌, arith, get_or-set-lt, set, length, length-set}
use ufson_mac_os.Base.Bits.{all_below_sound, all_below_complete, all_below_cong, bit_and-le}
use ufson_mac_os.Base.{Bool-cases}
use ufson_mac_os.Ffs.Block.{isblock, clrblock, setblock, byte, mask4, mask2, mask1}
use ufson_mac_os.Ffs.Block.Bytes.{isset}
use ufson_mac_os.Ffs.Block.Fragments.{IsFrag, AreBytes, isblock_lem}
use ufson_mac_os.Ffs.Block.Update.{InMap, isset-clrblock, isset-setblock}

set-AreBytes : (cp : List ℕ) (p v : ℕ) → v < 256 → AreBytes cp → AreBytes (set cp p v)
set-AreBytes cp p v lt bytes j = get_or-set-lt cp p j v 256 lt (bytes j)

and_not-AreBytes :
    (cp : List ℕ) (p m : ℕ) → AreBytes cp → AreBytes (set cp p (bit_and (byte cp p) (0xff - m)))
and_not-AreBytes cp p m bytes =
    set-AreBytes cp p _
      (let small = bit_and-le (byte cp p) (byte cp p) (0xff - m) (omega arith) in
        omega (arith, bytes p))
      bytes

pub clrblock-AreBytes :
    (frag : ℕ) (cp : List ℕ) (h : ℕ) → IsFrag frag → AreBytes cp → AreBytes (clrblock frag cp h)
unfolding clrblock
clrblock-AreBytes frag cp h (inl e) bytes = rw e (set-AreBytes cp h 0 (omega arith) bytes)
clrblock-AreBytes frag cp h (inr (inl e)) bytes = rw e (and_not-AreBytes cp _ (mask4 h) bytes)
clrblock-AreBytes frag cp h (inr (inr (inl e))) bytes = rw e (and_not-AreBytes cp _ (mask2 h) bytes)
clrblock-AreBytes frag cp h (inr (inr (inr e))) bytes = rw e (and_not-AreBytes cp _ (mask1 h) bytes)

pub length-clrblock :
    (frag : ℕ) (cp : List ℕ) (h : ℕ) → IsFrag frag → length (clrblock frag cp h) ≡ length cp
unfolding clrblock
length-clrblock frag cp h (inl e) = rw e (length-set cp h 0)
length-clrblock frag cp h (inr (inl e)) = rw e (length-set cp _ _)
length-clrblock frag cp h (inr (inr (inl e))) = rw e (length-set cp _ _)
length-clrblock frag cp h (inr (inr (inr e))) = rw e (length-set cp _ _)

pub setblock-AreBytes :
    (frag : ℕ) (cp : List ℕ) (h : ℕ) → IsFrag frag → AreBytes cp → AreBytes (setblock frag cp h)
unfolding setblock
setblock-AreBytes frag cp h (inl e) bytes = rw e (set-AreBytes cp h 0xff (omega arith) bytes)
setblock-AreBytes frag cp h (inr (inl e)) bytes = rw e (set-AreBytes cp _ _ (omega arith) bytes)
setblock-AreBytes frag cp h (inr (inr (inl e))) bytes =
    rw e (set-AreBytes cp _ _ (omega arith) bytes)
setblock-AreBytes frag cp h (inr (inr (inr e))) bytes =
    rw e (set-AreBytes cp _ _ (omega arith) bytes)

pub length-setblock :
    (frag : ℕ) (cp : List ℕ) (h : ℕ) → IsFrag frag → length (setblock frag cp h) ≡ length cp
unfolding setblock
length-setblock frag cp h (inl e) = rw e (length-set cp h 0xff)
length-setblock frag cp h (inr (inl e)) = rw e (length-set cp _ _)
length-setblock frag cp h (inr (inr (inl e))) = rw e (length-set cp _ _)
length-setblock frag cp h (inr (inr (inr e))) = rw e (length-set cp _ _)

module _ (frag : ℕ) (cp : List ℕ) (h : ℕ) (known : IsFrag frag) (bytes : AreBytes cp)
    (inside : InMap frag cp h) where
  frag_pos : 0 < frag
  frag_pos = ground arith

  -- Fragment `k` of block `i` is in block `i`.
  block_of_frag : (i k : ℕ) → k < frag → (i * frag + k) / frag ≡ i
  block_of_frag i k lt =
      let less : k / frag ≡ 0 = div-eq_of_lt lt in
      let place : (i * frag + k) / frag ≡ (k + i * frag) / frag =
        ap (λ t. t / frag) (omega arith) in
      omega (arith, place, add-mul-div_right k i frag_pos, less)

  pub isblock-clrblock_other :
      (i : ℕ) → i ≢ h → isblock frag cp i ≡ isblock frag (clrblock frag cp h) i
  isblock-clrblock_other i ne =
      isblock_lem frag cp i known bytes
      ∙ all_below_cong frag _ _ (λ k lt.
        ground
          (arith, block_of_frag i k lt, isset-clrblock frag cp h (i * frag + k) known bytes inside))
      ∙ sym
          (isblock_lem frag (clrblock frag cp h) i known (clrblock-AreBytes frag cp h known bytes))

  pub isblock-clrblock_same : isblock frag (clrblock frag cp h) h ≡ false
  isblock-clrblock_same = elim (Bool-cases (isblock frag (clrblock frag cp h) h)) [
    | inl t ↦
        let whole =
          sym (
            isblock_lem frag (clrblock frag cp h) h known (clrblock-AreBytes frag cp h known bytes))
          ∙ t in
        let head =
          all_below_sound frag (λ k. isset (clrblock frag cp h) (h * frag + k)) 0 whole frag_pos in
        absurd (
          ground (
            arith,
            head,
            block_of_frag h 0 frag_pos,
            isset-clrblock frag cp h (h * frag + 0) known bytes inside,
          ))
    | inr f ↦ f
  ]

  pub isblock-setblock_other :
      (i : ℕ) → i ≢ h → isblock frag cp i ≡ isblock frag (setblock frag cp h) i
  isblock-setblock_other i ne =
      isblock_lem frag cp i known bytes
      ∙ all_below_cong frag _ _ (λ k lt.
        ground
          (arith, block_of_frag i k lt, isset-setblock frag cp h (i * frag + k) known bytes inside))
      ∙ sym
          (isblock_lem frag (setblock frag cp h) i known (setblock-AreBytes frag cp h known bytes))

  pub isblock-setblock_same : isblock frag (setblock frag cp h) h ≡ true
  isblock-setblock_same =
      isblock_lem frag (setblock frag cp h) h known (setblock-AreBytes frag cp h known bytes)
      ∙ all_below_complete frag _ (λ k lt.
        ground
          (arith, block_of_frag h k lt, isset-setblock frag cp h (h * frag + k) known bytes inside))
