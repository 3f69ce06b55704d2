-- ===== src/Tests/Mapsearch.antt =====
-- The search for free fragments, and the group of three blocks of Tests.Libufs with its rotors.
use ufson_mac_os.Base.{
  ℕ, zero, suc, ◌/◌, ◌%◌, ◌*◌, ◌^◌, ◌≤◌, ◌<◌, ◌+◌, false, true, List, [], ◌∷◌, inl, inr,
}
use ufson_mac_os.Base.{◌≡◌, refl, arith, get_or, length}
use native.Mathlib.Nat.{zero-div}
use ufson_mac_os.Ffs.Block.Bytes.{isset}
use ufson_mac_os.Ffs.Block.Fragments.{AreBytes}
use ufson_mac_os.Alloc.Mapsearch.{mapsearch}
use ufson_mac_os.Alloc.Mapsearch.Sift.{IsFreeRun}
use ufson_mac_os.Alloc.Mapsearch.Found.{Finds, mapsearch-Finds}
use ufson_mac_os.Alloc.Group.{Group, alloccgblk}
use ufson_mac_os.Alloc.Group.Whole.{Allocated, alloccgblk-Allocates}
use ufson_mac_os.Tests.{get_or-all_lt}
use ufson_mac_os.Tests.Libufs.{disk, disk-IsGeometry, disk-BlocksAgree}

get_or_past : (xs : List ℕ) (i : ℕ) → length xs ≤ i → get_or xs i 0 ≡ 0
get_or_past [] i h = refl
get_or_past (x ∷ xs) zero h = absurd (omega arith)
get_or_past (x ∷ xs) (suc i) h = get_or_past xs i (omega arith)

unset_past : (xs : List ℕ) (i : ℕ) → length xs * 8 ≤ i → isset xs i ≡ false
unset_past xs i h =
    let e = get_or_past xs (i / 8) (omega arith) in rw (e, zero-div (2 ^ (i % 8))) refl

-- Fragments 13 and 14 are a run of two, in the second block of the byte.
abbrev map : List ℕ
map = 0x0f ∷ 0x69 ∷ []

map-AreBytes : AreBytes map
map-AreBytes = get_or-all_lt 256 map (omega arith) refl

run : IsFreeRun 4 map 2 13
run = record {
  one_block = omega arith;
  all_free = free;
  before = λ pos. refl;
  after = λ room. refl;
}
  where
    free : (k : ℕ) → k < 2 → isset map (13 + k) ≡ true
    free zero lt = refl
    free (suc zero) lt = refl
    free (suc (suc k)) lt = absurd (omega arith)

mapsearch-Finds_example : Finds 4 16 map 2 (mapsearch 4 16 map 2 3 0)
mapsearch-Finds_example =
    mapsearch-Finds 16 map (inr (inl refl)) map-AreBytes (λ i h. unset_past map i (omega arith)) 2 3
      0 13 (omega arith) (omega arith) (omega arith) run

abbrev group : Group
group = record { disk = disk; rotor = 0; frotor = 0 }

alloccgblk-Allocates_example : Allocated group (alloccgblk 4 0 group 0 32768)
alloccgblk-Allocates_example =
    alloccgblk-Allocates group disk-IsGeometry disk-BlocksAgree 32768 refl refl
      (λ i h. unset_past (disk.cg.blksfree) i (omega arith)) (omega arith) 4 0 0 (omega arith)

-- Block 2 has the fragments 17 and 18 free, beside the whole block 1.
abbrev partly_free : Group
partly_free = record {
  disk = record disk {
    cg = record (disk.cg) {
      blksfree = 0x00 ∷ 0xff ∷ 0x06 ∷ [];
      frsum = 0 ∷ 0 ∷ 1 ∷ 0 ∷ 0 ∷ 0 ∷ 0 ∷ 0 ∷ [];
    };
  };
  rotor = 0;
  frotor = 0;
}
