-- ===== src/Libufs/Cgroup/Free/Fragments.antt =====
-- The loop of `cgbfree` of libufs/cgroup.c that frees a part of a block.
use ufson_mac_os.Base.{ℕ, zero, suc, ◌+◌, ◌*◌, ◌≤◌, true, ◌&&◌, List}
use ufson_mac_os.Base.{◌≡◌, arith, ltb, leb, if◌then◌else◌, length, length-set}
use ufson_mac_os.Ffs.Block.Bytes.{isset}
use ufson_mac_os.Ffs.Block.Fragments.{AreBytes}
use ufson_mac_os.Ffs.Bitmap.{setbit, isset-setbit, setbit-AreBytes}
use ufson_mac_os.Libufs.Cgroup.Free.{set_frags}

-- The loop frees exactly the fragments from `i` on, as many as there are rounds, if the map has them
-- all.
pub isset-set_frags :
    (left i j : ℕ) (map : List ℕ)
    → AreBytes map
    → i + left ≤ length map * 8
    → isset (set_frags left i map) j ≡ (if leb i j && ltb j (i + left) then true else isset map j)
unfolding set_frags
isset-set_frags zero i j map bytes fits = ground arith
isset-set_frags (suc left) i j map bytes fits = ground (
  arith,
  isset-set_frags left (i + 1) j (setbit map i) (setbit-AreBytes map i bytes)
      (rw length-set (omega arith)),
  isset-setbit map i bytes j (omega arith),
)
