-- ===== src/Ffs/Block/Update.antt =====
-- `ffs_setblock` and `ffs_clrblock` of ufsX/ufs/ffs/ffs_subr.c against the map as a set of
-- fragments.
use ufson_mac_os.Base.{
  ℕ, ◌-◌, ◌*◌, ◌/◌, ◌%◌, ◌<◌, inl, inr, true, false, List, refl, bit_and, bit_or,
}
use ufson_mac_os.Base.{◌==◌, if◌then◌else◌, get_or, length, ◌≡◌, arith, u8}
use ufson_mac_os.Base.Bits.{all_below, all_below_sound}
use ufson_mac_os.Ffs.Block.{setblock, clrblock}
use ufson_mac_os.Ffs.Block.Bytes
use ufson_mac_os.Ffs.Block.Fragments.{IsFrag, AreBytes, mask4_lem, mask2_lem, mask1_lem, isset-set}

ones_lem : (k : ℕ) → k < 8 → Bytes.bit 0xff k ≡ true
unfolding all_below
ones_lem k = all_below_sound 8 (Bytes.bit 0xff) k refl

zeros_lem : (k : ℕ) → Bytes.bit 0 k ≡ false
zeros_lem k = ground arith

-- A map's block reaches no byte past its end.
abbrev pub InMap : ℕ → List ℕ → ℕ → Type 0
InMap frag cp h = h * frag < length cp * 8

module _ (cp : List ℕ) (h j : ℕ) (bytes : AreBytes cp) where
  isset-setblock8 :
      InMap 8 cp h
      → Bytes.isset (setblock 8 cp h) j ≡ (if j / 8 == h then true else Bytes.isset cp j)
  unfolding setblock
  isset-setblock8 inside =
      ground (arith, isset-set cp h 0xff j (omega arith), ones_lem (j % 8) (omega arith))

  isset-setblock4 :
      InMap 4 cp h
      → Bytes.isset (setblock 4 cp h) j ≡ (if j / 4 == h then true else Bytes.isset cp j)
  unfolding setblock
  isset-setblock4 inside = rw (mask4_lem h) (
      ground (
        arith,
        isset-set cp (h / 2) (u8 (bit_or (get_or cp (h / 2) 0) (Bytes.ones_at 4 (h % 2)))) j
            (omega arith),
        Bytes.bit-or4 (h % 2) (get_or cp (h / 2) 0) (j % 8) (bytes (h / 2)) (omega arith)
            (omega arith),
      ))

  isset-setblock2 :
      InMap 2 cp h
      → Bytes.isset (setblock 2 cp h) j ≡ (if j / 2 == h then true else Bytes.isset cp j)
  unfolding setblock
  isset-setblock2 inside = rw (mask2_lem h) (
      ground (
        arith,
        isset-set cp (h / 4) (u8 (bit_or (get_or cp (h / 4) 0) (Bytes.ones_at 2 (h % 4)))) j
            (omega arith),
        Bytes.bit-or2 (h % 4) (get_or cp (h / 4) 0) (j % 8) (bytes (h / 4)) (omega arith)
            (omega arith),
      ))

  isset-setblock1 :
      InMap 1 cp h
      → Bytes.isset (setblock 1 cp h) j ≡ (if j / 1 == h then true else Bytes.isset cp j)
  unfolding setblock
  isset-setblock1 inside = rw (mask1_lem h) (
      ground (
        arith,
        isset-set cp (h / 8) (u8 (bit_or (get_or cp (h / 8) 0) (Bytes.ones_at 1 (h % 8)))) j
            (omega arith),
        Bytes.bit-or1 (h % 8) (get_or cp (h / 8) 0) (j % 8) (bytes (h / 8)) (omega arith)
            (omega arith),
      ))

  isset-clrblock8 :
      InMap 8 cp h
      → Bytes.isset (clrblock 8 cp h) j ≡ (if j / 8 == h then false else Bytes.isset cp j)
  unfolding clrblock
  isset-clrblock8 inside = ground (arith, isset-set cp h 0 j (omega arith), zeros_lem (j % 8))

  isset-clrblock4 :
      InMap 4 cp h
      → Bytes.isset (clrblock 4 cp h) j ≡ (if j / 4 == h then false else Bytes.isset cp j)
  unfolding clrblock
  isset-clrblock4 inside = rw (mask4_lem h) (
      ground (
        arith,
        isset-set cp (h / 2) (bit_and (get_or cp (h / 2) 0) (0xff - Bytes.ones_at 4 (h % 2))) j
            (omega arith),
        Bytes.bit-clear4 (h % 2) (get_or cp (h / 2) 0) (j % 8) (bytes (h / 2)) (omega arith)
            (omega arith),
      ))

  isset-clrblock2 :
      InMap 2 cp h
      → Bytes.isset (clrblock 2 cp h) j ≡ (if j / 2 == h then false else Bytes.isset cp j)
  unfolding clrblock
  isset-clrblock2 inside = rw (mask2_lem h) (
      ground (
        arith,
        isset-set cp (h / 4) (bit_and (get_or cp (h / 4) 0) (0xff - Bytes.ones_at 2 (h % 4))) j
            (omega arith),
        Bytes.bit-clear2 (h % 4) (get_or cp (h / 4) 0) (j % 8) (bytes (h / 4)) (omega arith)
            (omega arith),
      ))

  isset-clrblock1 :
      InMap 1 cp h
      → Bytes.isset (clrblock 1 cp h) j ≡ (if j / 1 == h then false else Bytes.isset cp j)
  unfolding clrblock
  isset-clrblock1 inside = rw (mask1_lem h) (
      ground (
        arith,
        isset-set cp (h / 8) (bit_and (get_or cp (h / 8) 0) (0xff - Bytes.ones_at 1 (h % 8))) j
            (omega arith),
        Bytes.bit-clear1 (h % 8) (get_or cp (h / 8) 0) (j % 8) (bytes (h / 8)) (omega arith)
            (omega arith),
      ))

module _ (frag : ℕ) (cp : List ℕ) (h j : ℕ) (known : IsFrag frag) (bytes : AreBytes cp)
    (inside : InMap frag cp h) where
  -- `ffs_setblock` frees exactly the fragments of block `h`, and leaves every other one as it was,
  -- for each `fs_frag` that a file system may have and a block that starts within the map.
  pub isset-setblock :
      Bytes.isset (setblock frag cp h) j ≡ (if j / frag == h then true else Bytes.isset cp j)
  isset-setblock = go known
    where
      go :
          IsFrag frag
          → Bytes.isset (setblock frag cp h) j ≡ (if j / frag == h then true else Bytes.isset cp j)
      go (inl e) = rw e (isset-setblock8 cp h j bytes (rw e at inside))
      go (inr (inl e)) = rw e (isset-setblock4 cp h j bytes (rw e at inside))
      go (inr (inr (inl e))) = rw e (isset-setblock2 cp h j bytes (rw e at inside))
      go (inr (inr (inr e))) = rw e (isset-setblock1 cp h j bytes (rw e at inside))

  -- `ffs_clrblock` takes exactly the fragments of block `h`, and leaves every other one as it was,
  -- for each `fs_frag` that a file system may have and a block that starts within the map.
  pub isset-clrblock :
      Bytes.isset (clrblock frag cp h) j ≡ (if j / frag == h then false else Bytes.isset cp j)
  isset-clrblock = go known
    where
      go :
          IsFrag frag
          → Bytes.isset (clrblock frag cp h) j ≡ (if j / frag == h then false else Bytes.isset cp j)
      go (inl e) = rw e (isset-clrblock8 cp h j bytes (rw e at inside))
      go (inr (inl e)) = rw e (isset-clrblock4 cp h j bytes (rw e at inside))
      go (inr (inr (inl e))) = rw e (isset-clrblock2 cp h j bytes (rw e at inside))
      go (inr (inr (inr e))) = rw e (isset-clrblock1 cp h j bytes (rw e at inside))
