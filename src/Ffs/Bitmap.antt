-- ===== src/Ffs/Bitmap.antt =====
-- `setbit` and `clrbit` of <sys/param.h>, which the allocation maps are written with, and their laws.
use ufson_mac_os.Base.{
  ℕ, ◌-◌, ◌*◌, ◌/◌, ◌%◌, ◌<◌, true, false, List, bit_and, bit_or, u8, ◌<<<◌, ap,
}
use ufson_mac_os.Base.{
  ◌==◌, if◌then◌else◌, get_or, set, get_or-set-lt, length, ◌≡◌, refl, arith, ltb,
}
use ufson_mac_os.Base.Bits.{all_below, all_below_sound}
use ufson_mac_os.Ffs.Block.Bytes.{isset, bit-or1, bit-clear1, ones_at}
use ufson_mac_os.Ffs.Block.Fragments.{AreBytes, isset-set}

abbrev pub setbit : List ℕ → ℕ → List ℕ
setbit a i = set a (i / 8) (u8 (bit_or (get_or a (i / 8) 0) (1 <<< (i % 8))))

abbrev pub clrbit : List ℕ → ℕ → List ℕ
clrbit a i = set a (i / 8) (bit_and (get_or a (i / 8) 0) (0xff - (1 <<< (i % 8))))

one_at : (k : ℕ) → ones_at 1 k ≡ 1 <<< k
one_at k = ap (λ e. 1 <<< e) (omega arith)

clear_table : all_below 8 (λ k. all_below 256 (λ b. ltb (bit_and b (0xff - (1 <<< k))) 256)) ≡ true
unfolding all_below
clear_table = refl

bit_clear_byte : (b k : ℕ) → b < 256 → k < 8 → bit_and b (0xff - (1 <<< k)) < 256
bit_clear_byte b k hb hk =
    let t : ltb (bit_and b (0xff - (1 <<< k))) 256 ≡ true =
      all_below_sound 256 (λ b. ltb (bit_and b (0xff - (1 <<< k))) 256) b
        (all_below_sound 8 _ k clear_table hk) hb in
    ground arith

module _ (free : List ℕ) (b : ℕ) (bytes : AreBytes free) where
  pub setbit-AreBytes : AreBytes (setbit free b)
  setbit-AreBytes j = get_or-set-lt free (b / 8) j _ 256 (omega arith) (bytes j)

  pub clrbit-AreBytes : AreBytes (clrbit free b)
  clrbit-AreBytes j =
      get_or-set-lt free (b / 8) j _ 256
        (bit_clear_byte (get_or free (b / 8) 0) (b % 8) (bytes (b / 8)) (omega arith)) (bytes j)

  pub isset-setbit :
      (j : ℕ)
      → b < length free * 8
      → isset (setbit free b) j ≡ (if j == b then true else isset free j)
  isset-setbit j h = rw (← one_at (b % 8)) (
      ground (
        arith,
        isset-set free (b / 8) (u8 (bit_or (get_or free (b / 8) 0) (ones_at 1 (b % 8)))) j
            (omega arith),
        bit-or1 (b % 8) (get_or free (b / 8) 0) (j % 8) (bytes (b / 8)) (omega arith) (omega arith),
      ))

  pub isset-clrbit :
      (j : ℕ)
      → b < length free * 8
      → isset (clrbit free b) j ≡ (if j == b then false else isset free j)
  isset-clrbit j h = rw (← one_at (b % 8)) (
      ground (
        arith,
        isset-set free (b / 8) (bit_and (get_or free (b / 8) 0) (0xff - ones_at 1 (b % 8))) j
            (omega arith),
        bit-clear1 (b % 8) (get_or free (b / 8) 0) (j % 8) (bytes (b / 8)) (omega arith)
            (omega arith),
      ))
