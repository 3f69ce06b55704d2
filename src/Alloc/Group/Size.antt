-- ===== src/Alloc/Group/Size.antt =====
-- The loops of `ffs_alloccg` of ufsX/ufs/ffs/ffs_alloc.c over the sizes and over the fragments.
use ufson_mac_os.Base.{ℕ, zero, suc, ◌+◌, ◌*◌, ◌<◌, ◌≤◌, false, ◌&&◌, List, inl, inr}
use ufson_mac_os.Base.{
  ◌≡◌, ◌≢◌, arith, ltb, leb, ◌==◌, ==_iff, Bool-cases, if◌then◌else◌, get_or, length, length-set,
}
use ufson_mac_os.Ffs.Block.Bytes.{isset}
use ufson_mac_os.Ffs.Block.Fragments.{AreBytes}
use ufson_mac_os.Ffs.Bitmap.{clrbit, isset-clrbit, clrbit-AreBytes}
use ufson_mac_os.Alloc.Group.{clear_frags, first_size}

-- The loop takes exactly the fragments from `i` on, as many as there are rounds.
pub isset-clear_frags :
    (left i j : ℕ) (map : List ℕ)
    → AreBytes map
    → i + left ≤ length map * 8
    → isset (clear_frags left i map) j
      ≡ (if leb i j && ltb j (i + left) then false else isset map j)
unfolding clear_frags
isset-clear_frags zero i j map bytes fits = ground arith
isset-clear_frags (suc left) i j map bytes fits = ground (
  arith,
  isset-clear_frags left (i + 1) j (clrbit map i) (clrbit-AreBytes map i bytes)
      (rw length-set (omega arith)),
  isset-clrbit map i bytes j (omega arith),
)

-- The loop over the sizes stops at the first that has a count.
pub record IsFirstSize (frsum : List ℕ) (i n r : ℕ) : Type 0 where
  pub low : i ≤ r
  pub high : r ≤ n
  pub passed : (s : ℕ) → i ≤ s → s < r → get_or frsum s 0 ≡ 0
  pub stops : r < n → get_or frsum r 0 ≢ 0

pub first_size_lem :
    (frsum : List ℕ) (left i : ℕ) → IsFirstSize frsum i (i + left) (first_size frsum left i)
unfolding first_size
first_size_lem frsum zero i = record {
  low = omega arith;
  high = omega arith;
  passed = λ s lo hi. absurd (omega arith);
  stops = λ lt. absurd (omega arith);
}
first_size_lem frsum (suc left) i = elim (Bool-cases (get_or frsum i 0 == 0)) [
  | inl e ↦
      let rest = first_size_lem frsum left (i + 1) in
      let zero_ = (==_iff (get_or frsum i 0) 0).0 e in
      rw (first_size, e)
        (record {
          low = omega (arith, rest.low);
          high = omega (arith, rest.high);
          passed = λ s lo hi. elim (Bool-cases (s == i)) [
            | inl here ↦ rw ((==_iff s i).0 here) zero_
            | inr off ↦ let off : s ≢ i = ground arith in rest.passed s (omega arith) hi
          ];
          stops = λ lt. rest.stops (omega arith);
        })
  | inr e ↦
      let some_ : get_or frsum i 0 ≢ 0 = ground arith in
      rw (first_size, e)
        (record {
          low = omega arith;
          high = omega arith;
          passed = λ s lo hi. absurd (omega arith);
          stops = λ lt. some_;
        })
]
