-- ===== src/Ffs/Block/Fragments.antt =====
-- The block routines of ufsX/ufs/ffs/ffs_subr.c against the map as a set of fragments: block `h`
-- is the `frag` fragments from `h * frag` on.
use ufson_mac_os.Base.{
  ℕ, ◌+◌, ◌*◌, ◌/◌, ◌%◌, ◌^◌, ◌<◌, ◌⊎◌, inl, inr, List, not, refl, ap, sym, subst,
}
use ufson_mac_os.Base.{
  ◌==◌, ==_iff, if◌then◌else◌, get_or, get_or-set, set, length, ◌≡◌, ◌∙◌, arith, u8,
}
use ufson_mac_os.Base.Bits.{all_below, all_below_sound, all_below_cong}
use ufson_mac_os.Base.Bits.{bit_and-one, bit_and_three, bit_and_seven}
use ufson_mac_os.Ffs.Block.{isblock, isfreeblock, mask4, mask2, mask1}
use ufson_mac_os.Ffs.Block.Bytes

-- The values of `fs_frag` that the switches know.
abbrev pub IsFrag : ℕ → Type 0
IsFrag frag = (frag ≡ 8) ⊎ (frag ≡ 4) ⊎ (frag ≡ 2) ⊎ (frag ≡ 1)

-- A proof for each of the values.
pub frag_cases : (P : ℕ → Type 0) {frag : ℕ} → IsFrag frag → P 8 → P 4 → P 2 → P 1 → P frag
frag_cases P (inl e) a b c d = subst P (sym e) a
frag_cases P (inr (inl e)) a b c d = subst P (sym e) b
frag_cases P (inr (inr (inl e))) a b c d = subst P (sym e) c
frag_cases P (inr (inr (inr e))) a b c d = subst P (sym e) d

-- Each element is a byte.
abbrev pub AreBytes : List ℕ → Type 0
AreBytes cp = (i : ℕ) → get_or cp i 0 < 256

pub mask4_lem : (h : ℕ) → mask4 h ≡ Bytes.ones_at 4 (h % 2)
mask4_lem h = rw (bit_and-one h)

pub mask2_lem : (h : ℕ) → mask2 h ≡ Bytes.ones_at 2 (h % 4)
mask2_lem h = rw (bit_and_three h)

pub mask1_lem : (h : ℕ) → mask1 h ≡ Bytes.ones_at 1 (h % 8)
mask1_lem h = rw (bit_and_seven h) (ap (λ k. 1 * 2 ^ k) (omega arith))

u8-ones4 : (s : ℕ) → s < 2 → u8 (Bytes.ones_at 4 s) ≡ Bytes.ones_at 4 s
unfolding all_below
u8-ones4 s h =
    (==_iff _ _).0 (all_below_sound 2 (λ s. u8 (Bytes.ones_at 4 s) == Bytes.ones_at 4 s) s refl h)

u8-ones2 : (s : ℕ) → s < 4 → u8 (Bytes.ones_at 2 s) ≡ Bytes.ones_at 2 s
unfolding all_below
u8-ones2 s h =
    (==_iff _ _).0 (all_below_sound 4 (λ s. u8 (Bytes.ones_at 2 s) == Bytes.ones_at 2 s) s refl h)

u8-ones1 : (s : ℕ) → s < 8 → u8 (Bytes.ones_at 1 s) ≡ Bytes.ones_at 1 s
unfolding all_below
u8-ones1 s h =
    (==_iff _ _).0 (all_below_sound 8 (λ s. u8 (Bytes.ones_at 1 s) == Bytes.ones_at 1 s) s refl h)

-- The bits of a block lie in one byte.
isset_of_block :
    (cp : List ℕ) (i p k : ℕ)
    → p ≡ i / 8
    → k ≡ i % 8
    → Bytes.bit (get_or cp p 0) k ≡ Bytes.isset cp i
isset_of_block cp i p k e f = rw (e, f)

pub isset-set :
    (cp : List ℕ) (p v j : ℕ)
    → p < length cp
    → Bytes.isset (set cp p v) j ≡ (if j / 8 == p then Bytes.bit v (j % 8) else Bytes.isset cp j)
isset-set cp p v j h = ground (arith, get_or-set cp p (j / 8) v 0 h)

module _ (cp : List ℕ) (h : ℕ) (bytes : AreBytes cp) where
  isblock_lem8 : isblock 8 cp h ≡ all_below 8 (λ k. Bytes.isset cp (h * 8 + k))
  unfolding isblock
  isblock_lem8 =
      Bytes.all_set8 (get_or cp h 0) (bytes h)
      ∙ all_below_cong 8 _ _ (λ k lt. isset_of_block cp (h * 8 + k) h k (omega arith) (omega arith))

  isblock_lem4 : isblock 4 cp h ≡ all_below 4 (λ k. Bytes.isset cp (h * 4 + k))
  unfolding isblock
  isblock_lem4 =
      rw (mask4_lem h, u8-ones4 (h % 2) (omega arith))
        (Bytes.all_set4 (h % 2) (get_or cp (h / 2) 0) (bytes (h / 2)) (omega arith)
          ∙ all_below_cong 4 _ _ (λ k lt.
            isset_of_block cp (h * 4 + k) (h / 2) (h % 2 * 4 + k) (omega arith) (omega arith)))

  isblock_lem2 : isblock 2 cp h ≡ all_below 2 (λ k. Bytes.isset cp (h * 2 + k))
  unfolding isblock
  isblock_lem2 =
      rw (mask2_lem h, u8-ones2 (h % 4) (omega arith))
        (Bytes.all_set2 (h % 4) (get_or cp (h / 4) 0) (bytes (h / 4)) (omega arith)
          ∙ all_below_cong 2 _ _ (λ k lt.
            isset_of_block cp (h * 2 + k) (h / 4) (h % 4 * 2 + k) (omega arith) (omega arith)))

  isblock_lem1 : isblock 1 cp h ≡ all_below 1 (λ k. Bytes.isset cp (h * 1 + k))
  unfolding isblock
  isblock_lem1 =
      rw (mask1_lem h, u8-ones1 (h % 8) (omega arith))
        (Bytes.all_set1 (h % 8) (get_or cp (h / 8) 0) (bytes (h / 8)) (omega arith)
          ∙ all_below_cong 1 _ _ (λ k lt.
            isset_of_block cp (h * 1 + k) (h / 8) (h % 8 * 1 + k) (omega arith) (omega arith)))

  isfreeblock_lem8 : isfreeblock 8 cp h ≡ all_below 8 (λ k. not (Bytes.isset cp (h * 8 + k)))
  unfolding isfreeblock
  isfreeblock_lem8 =
      Bytes.all_clear8 (get_or cp h 0) (bytes h)
      ∙ all_below_cong 8 _ _
          (λ k lt. ap not (isset_of_block cp (h * 8 + k) h k (omega arith) (omega arith)))

  isfreeblock_lem4 : isfreeblock 4 cp h ≡ all_below 4 (λ k. not (Bytes.isset cp (h * 4 + k)))
  unfolding isfreeblock
  isfreeblock_lem4 = rw (mask4_lem h) (
      Bytes.all_clear4 (h % 2) (get_or cp (h / 2) 0) (bytes (h / 2)) (omega arith)
      ∙ all_below_cong 4 _ _ (λ k lt.
        ap not (isset_of_block cp (h * 4 + k) (h / 2) (h % 2 * 4 + k) (omega arith) (omega arith))))

  isfreeblock_lem2 : isfreeblock 2 cp h ≡ all_below 2 (λ k. not (Bytes.isset cp (h * 2 + k)))
  unfolding isfreeblock
  isfreeblock_lem2 = rw (mask2_lem h) (
      Bytes.all_clear2 (h % 4) (get_or cp (h / 4) 0) (bytes (h / 4)) (omega arith)
      ∙ all_below_cong 2 _ _ (λ k lt.
        ap not (isset_of_block cp (h * 2 + k) (h / 4) (h % 4 * 2 + k) (omega arith) (omega arith))))

  isfreeblock_lem1 : isfreeblock 1 cp h ≡ all_below 1 (λ k. not (Bytes.isset cp (h * 1 + k)))
  unfolding isfreeblock
  isfreeblock_lem1 = rw (mask1_lem h) (
      Bytes.all_clear1 (h % 8) (get_or cp (h / 8) 0) (bytes (h / 8)) (omega arith)
      ∙ all_below_cong 1 _ _ (λ k lt.
        ap not (isset_of_block cp (h * 1 + k) (h / 8) (h % 8 * 1 + k) (omega arith) (omega arith))))

module _ (frag : ℕ) (cp : List ℕ) (h : ℕ) (known : IsFrag frag) (bytes : AreBytes cp) where
  -- `ffs_isblock` holds exactly when every fragment of block `h` is free, for each `fs_frag` that
  -- a file system may have and a map of bytes.
  pub isblock_lem : isblock frag cp h ≡ all_below frag (λ k. Bytes.isset cp (h * frag + k))
  isblock_lem = elim known [
    | inl e ↦ rw e (isblock_lem8 cp h bytes)
    | inr (inl e) ↦ rw e (isblock_lem4 cp h bytes)
    | inr (inr (inl e)) ↦ rw e (isblock_lem2 cp h bytes)
    | inr (inr (inr e)) ↦ rw e (isblock_lem1 cp h bytes)
  ]

  -- `ffs_isfreeblock` holds exactly when every fragment of block `h` is in use, for each `fs_frag`
  -- that a file system may have and a map of bytes.
  pub isfreeblock_lem :
      isfreeblock frag cp h ≡ all_below frag (λ k. not (Bytes.isset cp (h * frag + k)))
  isfreeblock_lem = elim known [
    | inl e ↦ rw e (isfreeblock_lem8 cp h bytes)
    | inr (inl e) ↦ rw e (isfreeblock_lem4 cp h bytes)
    | inr (inr (inl e)) ↦ rw e (isfreeblock_lem2 cp h bytes)
    | inr (inr (inr e)) ↦ rw e (isfreeblock_lem1 cp h bytes)
  ]
