-- ===== src/Tests/Libufs.antt =====
-- A group of three blocks and eight inodes, in memory and on a device.
use ufson_mac_os.Base.{ℕ, zero, suc, ◌/◌, ◌<◌, ◌≤◌, false, Option, none, some, List, [], ◌∷◌}
use ufson_mac_os.Base.{◌≡◌, refl, ap, sym, arith, get_or, u32_mod, inl}
use ufson_mac_os.Base.Count.{count_below}
use ufson_mac_os.Super.{Fs}
use ufson_mac_os.Ffs.Block.{isblock}
use ufson_mac_os.Ffs.Block.Bytes.{isset}
use ufson_mac_os.Ffs.Cluster.Tally.{sized, tally}
use ufson_mac_os.Ffs.Cluster.InSync.{clusters, InSync}
use ufson_mac_os.Libufs.Disk.{Csum, Cg, Uufsd, bwrite}
use ufson_mac_os.Libufs.Disk.Writes.{Written, Keeps, Descriptors, bwrite-Written}
use ufson_mac_os.Libufs.Cgroup.{cgballoc, cgialloc}
use ufson_mac_os.Libufs.Cgroup.Blocks.{IsGeometry, BlocksAgree}
use ufson_mac_os.Libufs.Cgroup.Alloc.{Outcome, cgballoc-Outcome}
use ufson_mac_os.Libufs.Cgroup.Inodes.{InodesAgree}
use ufson_mac_os.Libufs.Cgroup.AllocInode.{InodeOutcome, cgialloc-Outcome}
use ufson_mac_os.Libufs.Cgroup.Device.{World, full, whole, calc_hash, cgread1, cgget, stamp}
use ufson_mac_os.Libufs.Cgroup.Device.Check.{IsGroup, Reads, cgread1-Reads, cgget-stamp}
use ufson_mac_os.Libufs.Cgroup.Free.{cgbfree}
use ufson_mac_os.Libufs.Cgroup.Free.Group.{Frees, cgbfree-Frees}
use ufson_mac_os.Tests.{get_or-all_lt}
use ufson_mac_os.Tests.Super as Super

abbrev geometry : Fs
geometry = record (Super.fs) { fpg = 24; ipg = 8; ncg = 1 }

-- Block 1 is free, and inodes 4 to 7 are.
abbrev counts : Csum
counts = record { ndir = 0; nbfree = 1; nifree = 4; nffree = 0 }

abbrev group : Cg
group = record {
  magic = 0x090255;
  cgx = 0;
  cs = counts;
  irotor = 0;
  frsum = 0 ∷ 0 ∷ 0 ∷ 0 ∷ 0 ∷ 0 ∷ 0 ∷ 0 ∷ [];
  niblk = 8;
  initediblk = 8;
  ckhash = 7;
  inosused = 0x0f ∷ [];
  blksfree = 0x00 ∷ 0xff ∷ 0x00 ∷ [];
  clusters = record { free = 0x02 ∷ []; sum = 0 ∷ 1 ∷ 0 ∷ 0 ∷ 0 ∷ []; nblks = 3; maxcluster = 1 };
}

abbrev pub disk : Uufsd
disk = record {
  writable = false;
  fd = 3;
  closed = [];
  bsize = 512;
  error = none;
  fs = geometry;
  cstotal = counts;
  csp = counts ∷ [];
  cg = group;
  ccg = 0;
  lcg = 0;
}

abbrev world : World
world = record { pread = λ offset. full group; pwrite = λ offset cg. whole; crc = λ cg. 7 }

pub disk-IsGeometry : IsGeometry disk
disk-IsGeometry = record {
  known = inl refl;
  shift = refl;
  small = omega arith;
  clustered = omega arith;
}

cluster-counts :
    (k : ℕ) → 1 ≤ k → k ≤ 4 → get_or (group.clusters.sum) k 0 ≡ clusters 4 (group.clusters.free) 3 k
unfolding tally sized
cluster-counts zero lo hi = absurd (omega arith)
cluster-counts (suc zero) lo hi = refl
cluster-counts (suc (suc zero)) lo hi = refl
cluster-counts (suc (suc (suc zero))) lo hi = refl
cluster-counts (suc (suc (suc (suc zero)))) lo hi = refl
cluster-counts (suc (suc (suc (suc (suc k))))) lo hi = absurd (omega arith)

clusters-InSync : InSync 4 (group.clusters)
clusters-InSync = record {
  bytes = get_or-all_lt 256 (group.clusters.free) (omega arith) refl;
  words = get_or-all_lt u32_mod (group.clusters.sum) (omega arith) refl;
  room = omega arith;
  covers = omega arith;
  small = omega arith;
  counts = cluster-counts;
}

block_bits : (h : ℕ) → h < 3 → isset (group.clusters.free) h ≡ isblock 8 (group.blksfree) h
unfolding isblock
block_bits zero lt = refl
block_bits (suc zero) lt = refl
block_bits (suc (suc zero)) lt = refl
block_bits (suc (suc (suc h))) lt = absurd (omega arith)

pub disk-BlocksAgree : BlocksAgree disk
unfolding isblock count_below
disk-BlocksAgree = record {
  bytes = get_or-all_lt 256 (group.blksfree) (omega arith) refl;
  covers = omega arith;
  own = omega arith;
  counted = refl;
  summary = refl;
  total = refl;
  sync = clusters-InSync;
  nclusters = refl;
  bits = block_bits;
}

disk-InodesAgree : InodesAgree disk
unfolding count_below
disk-InodesAgree = record {
  bytes = get_or-all_lt 256 (group.inosused) (omega arith) refl;
  covers = omega arith;
  small = omega arith;
  own = omega arith;
  counted = refl;
  summary = refl;
  total = refl;
}

abbrev pwrite : ℕ → List ℕ → ℕ → Option ℕ
pwrite offset data_ size = some size

cgballoc-Outcome_example : Outcome disk (cgballoc disk)
cgballoc-Outcome_example = cgballoc-Outcome disk disk-IsGeometry disk-BlocksAgree

cgialloc-Outcome_example : InodeOutcome disk (cgialloc (some 4) pwrite (11 ∷ 12 ∷ []) disk)
cgialloc-Outcome_example =
    cgialloc-Outcome (some 4) pwrite (11 ∷ 12 ∷ []) disk disk-InodesAgree (omega arith)

bwrite-Written_example :
    Written (some 4) pwrite disk 5 (1 ∷ 2 ∷ []) 2 (bwrite (some 4) pwrite disk 5 (1 ∷ 2 ∷ []) 2)
    × Keeps disk ((bwrite (some 4) pwrite disk 5 (1 ∷ 2 ∷ []) 2).1)
    × Descriptors (some 4) disk ((bwrite (some 4) pwrite disk 5 (1 ∷ 2 ∷ []) 2).1)
bwrite-Written_example = bwrite-Written (some 4) pwrite disk 5 (1 ∷ 2 ∷ []) 2

cgread1-Reads_example : Reads world disk 0 (cgread1 world disk 0)
cgread1-Reads_example = cgread1-Reads world disk 0

stamped : stamp world geometry group ≡ group
unfolding stamp
stamped = refl

cgget-stamp_example :
    cgget world geometry 0 group
    ≡ record { error = none; failmsg = none; cg = stamp world geometry group }
cgget-stamp_example =
    cgget-stamp world geometry group group refl (ap (λ (cg : Cg). full cg) (sym stamped))

group-IsGroup : IsGroup world geometry (16 / 24) group
unfolding calc_hash
group-IsGroup = record { read = refl; hash = refl; magic = refl; cgx = refl }

block_used : isblock 8 (group.blksfree) 2 ≡ false
unfolding isblock
block_used = refl

cgbfree-Frees_example : Frees world disk group 2 (cgbfree world disk 16 32768)
cgbfree-Frees_example =
    cgbfree-Frees world disk 16 32768 group disk-IsGeometry group-IsGroup disk-BlocksAgree
      (omega arith) refl (omega arith) block_used
