-- ===== src/Tests/Ffs.antt =====
-- The maps and counts of a cylinder group on small inputs.
use ufson_mac_os.Base.{
  ℕ, zero, suc, ◌+◌, ◌*◌, ◌/◌, ◌≤◌, true, false, not, List, [], ◌∷◌, ◌%◌, ◌&&◌, leb, ltb, ◌==◌,
}
use ufson_mac_os.Base.{◌≡◌, refl, arith, get_or, if◌then◌else◌, u32_mod, minus_one, inl, inr}
use ufson_mac_os.Base.Bits.{all_below}
use ufson_mac_os.Tests.{get_or-all_lt}
use ufson_mac_os.Ffs.Block.{isblock, isfreeblock, setblock, clrblock}
use ufson_mac_os.Ffs.Block.Bytes.{isset}
use ufson_mac_os.Ffs.Block.Fragments.{AreBytes, isblock_lem, isfreeblock_lem}
use ufson_mac_os.Ffs.Block.Update.{isset-setblock, isset-clrblock}
use ufson_mac_os.Ffs.Fragacct.{fragacct}
use ufson_mac_os.Ffs.Fragacct.Runs.{runs}
use ufson_mac_os.Ffs.Fragacct.Counts.{AreWords, fragacct_lem}
use ufson_mac_os.Ffs.Bitmap.{setbit, clrbit}
use ufson_mac_os.Ffs.Cluster.{Clusters, clusteracct}
use ufson_mac_os.Ffs.Cluster.Tally.{sized, tally}
use ufson_mac_os.Ffs.Cluster.InSync.{
  clusters, InSync, IsLargest, clusteracct_free, clusteracct_alloc,
}

abbrev map : List ℕ
map = 0xf7 ∷ 0x0f ∷ []

map-AreBytes : AreBytes map
map-AreBytes = get_or-all_lt 256 map (omega arith) refl

isblock_example : isblock 4 map 2 ≡ all_below 4 (λ k. isset map (2 * 4 + k))
isblock_example = isblock_lem 4 map 2 (inr (inl refl)) map-AreBytes

isfreeblock_example : isfreeblock 4 map 3 ≡ all_below 4 (λ k. not (isset map (3 * 4 + k)))
isfreeblock_example = isfreeblock_lem 4 map 3 (inr (inl refl)) map-AreBytes

isset-setblock_example : isset (setblock 4 map 3) 13 ≡ (if 13 / 4 == 3 then true else isset map 13)
isset-setblock_example = isset-setblock 4 map 3 13 (inr (inl refl)) map-AreBytes (omega arith)

isset-clrblock_example : isset (clrblock 2 map 1) 3 ≡ (if 3 / 2 == 1 then false else isset map 3)
isset-clrblock_example = isset-clrblock 2 map 1 3 (inr (inr (inl refl))) map-AreBytes (omega arith)

abbrev frsum : List ℕ
frsum = 0 ∷ 0 ∷ 0 ∷ 5 ∷ 6 ∷ 0 ∷ 0 ∷ 0 ∷ []

frsum-AreWords : AreWords frsum
frsum-AreWords = get_or-all_lt u32_mod frsum (omega arith) refl

fragacct_example : get_or (fragacct 8 0xf7 frsum minus_one) 3 0 ≡ (
    if leb 1 3 && ltb 3 8
    then (get_or frsum 3 0 + runs 8 0xf7 3 * minus_one) % u32_mod
    else get_or frsum 3 0)
fragacct_example =
    fragacct_lem 0xf7 3 minus_one frsum (inl refl) (omega arith) (omega arith) frsum-AreWords

-- Seven blocks, of which 0, 1, 3 and 4 are free.
abbrev group : Clusters
group = record { free = 0x1b ∷ []; sum = 0 ∷ 0 ∷ 2 ∷ 0 ∷ 0 ∷ []; nblks = 7; maxcluster = 2 }

group-counts : (k : ℕ) → 1 ≤ k → k ≤ 4 → get_or (group.sum) k 0 ≡ clusters 4 (group.free) 7 k
unfolding tally sized
group-counts zero lo hi = absurd (omega arith)
group-counts (suc zero) lo hi = refl
group-counts (suc (suc zero)) lo hi = refl
group-counts (suc (suc (suc zero))) lo hi = refl
group-counts (suc (suc (suc (suc zero)))) lo hi = refl
group-counts (suc (suc (suc (suc (suc k))))) lo hi = absurd (omega arith)

group-InSync : InSync 4 group
group-InSync = record {
  bytes = get_or-all_lt 256 (group.free) (omega arith) refl;
  words = get_or-all_lt u32_mod (group.sum) (omega arith) refl;
  room = omega arith;
  covers = omega arith;
  small = omega arith;
  counts = group-counts;
}

clusteracct_free_example :
    InSync 4 (clusteracct 4 group 2 1)
    × IsLargest 4 (setbit (group.free) 2) 7 (clusteracct 4 group 2 1).maxcluster
    × ((clusteracct 4 group 2 1).free ≡ setbit (group.free) 2)
clusteracct_free_example = clusteracct_free 4 group 2 group-InSync (omega arith) (omega arith) refl

clusteracct_alloc_example :
    InSync 4 (clusteracct 4 group 1 minus_one)
    × IsLargest 4 (clrbit (group.free) 1) 7 (clusteracct 4 group 1 minus_one).maxcluster
    × ((clusteracct 4 group 1 minus_one).free ≡ clrbit (group.free) 1)
clusteracct_alloc_example =
    clusteracct_alloc 4 group 1 group-InSync (omega arith) (omega arith) refl
