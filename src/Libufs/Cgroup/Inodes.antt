-- ===== src/Libufs/Cgroup/Inodes.antt =====
-- What it means that the map and the counts of free inodes agree, and the allocation of an inode by
-- `cgialloc` of libufs/cgroup.c.
use ufson_mac_os.Base.{ℕ, suc, ◌*◌, ◌/◌, ◌%◌, ◌<◌, ◌≤◌, false, not, List}
use ufson_mac_os.Base.{
  ◌≡◌, ap, ◌∙◌, arith, ◌==◌, if◌then◌else◌, get_or, set, length, length-set, sub32,
}
use ufson_mac_os.Base.Count.{count_below, count_below-le, count_below_less}
use ufson_mac_os.Ffs.Block.Bytes.{isset}
use ufson_mac_os.Ffs.Block.Fragments.{AreBytes}
use ufson_mac_os.Ffs.Bitmap.{setbit, isset-setbit, setbit-AreBytes}
use ufson_mac_os.Ffs.Cluster.Walk.{bit_and-bit}
use ufson_mac_os.Libufs.Disk.{Csum, Uufsd}
use ufson_mac_os.Libufs.Cgroup.{fs_cs, u64_mod, sub64, less_inode, isclr, take_inode}
use ufson_mac_os.Libufs.Cgroup.Sums.{sum_cs, sum_cs-set, fs_cs-le, fs_cs-set}
use ufson_mac_os.Libufs.Cgroup.Search.{IsFirst}

abbrev pub nifree_of : Csum → ℕ
nifree_of cs = cs.nifree

-- The map and the counts of free inodes say the same.
pub record InodesAgree (disk : Uufsd) : Type 0 where
  pub bytes : AreBytes disk.cg.inosused
  pub covers : disk.fs.ipg ≤ length disk.cg.inosused * 8
  pub small : disk.fs.ipg < 0x80000000
  pub own : disk.cg.cgx < length disk.csp
  pub counted : disk.cg.cs.nifree ≡ count_below disk.fs.ipg (isclr disk.cg.inosused)
  pub summary : (fs_cs disk.csp disk.cg.cgx).nifree ≡ disk.cg.cs.nifree
  pub total : disk.cstotal.nifree ≡ sum_cs nifree_of disk.csp % u64_mod

pub isclr-isset : (map : List ℕ) (i : ℕ) → AreBytes map → isclr map i ≡ not (isset map i)
isclr-isset map i bytes =
    ground (arith, bit_and-bit (get_or map (i / 8) 0) (i % 8) (bytes (i / 8)) (omega arith))

module _ (disk : Uufsd) (agree : InodesAgree disk) (ino : ℕ)
    (first : IsFirst (isclr disk.cg.inosused) disk.fs.ipg ino) where
  abbrev map : List ℕ
  map = disk.cg.inosused

  abbrev used : List ℕ
  used = setbit map ino

  inside : ino < length map * 8
  inside = omega (arith, first.below, agree.covers)

  pub isclr-setbit : (j : ℕ) → isclr used j ≡ (if j == ino then false else isclr map j)
  isclr-setbit j = ground (
    arith,
    isclr-isset used j (setbit-AreBytes map ino agree.bytes),
    isclr-isset map j agree.bytes,
    isset-setbit map ino agree.bytes j inside,
  )

  fewer : count_below disk.fs.ipg (isclr map) ≡ suc (count_below disk.fs.ipg (isclr used))
  fewer =
      count_below_less disk.fs.ipg ino (isclr map) (isclr used) first.below first.holds
        (ground (arith, isclr-setbit ino)) (λ i ne lt. ground (arith, isclr-setbit i))

  counted_lem : sub32 disk.cg.cs.nifree 1 ≡ count_below disk.fs.ipg (isclr used)
  counted_lem =
      omega (arith, agree.counted, fewer, agree.small, count_below-le disk.fs.ipg (isclr map))

  summary_lem : (less_inode (fs_cs disk.csp disk.cg.cgx)).nifree ≡ (less_inode disk.cg.cs).nifree
  summary_lem = ap (λ n. sub32 n 1) agree.summary

  total_lem :
      sub64 disk.cstotal.nifree 1
      ≡ sum_cs nifree_of (set disk.csp disk.cg.cgx (less_inode (fs_cs disk.csp disk.cg.cgx)))
        % u64_mod
  total_lem = omega (
    arith,
    agree.total,
    agree.counted,
    agree.summary,
    fewer,
    summary_lem,
    counted_lem,
    fs_cs-le nifree_of disk.csp disk.cg.cgx agree.own,
    sum_cs-set nifree_of disk.csp disk.cg.cgx (less_inode (fs_cs disk.csp disk.cg.cgx)) agree.own,
  )

  pub take_inode-InodesAgree : InodesAgree ((take_inode disk ino).1)
  unfolding take_inode
  take_inode-InodesAgree = record {
    bytes = setbit-AreBytes map ino agree.bytes;
    covers = rw length-set agree.covers;
    small = agree.small;
    own = rw length-set agree.own;
    counted = counted_lem;
    summary =
        ap (λ (cs : Csum). cs.nifree) (fs_cs-set disk.csp disk.cg.cgx _ agree.own) ∙ summary_lem;
    total = total_lem;
  }
