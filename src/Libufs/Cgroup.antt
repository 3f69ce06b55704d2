-- ===== src/Libufs/Cgroup.antt =====
-- libufs/cgroup.c: `cgballoc` and `cgialloc` here, the reading and writing of groups in
-- Device, and `cgbfree` in Free. A block or inode number is not negative, and the addresses of a group fit their types.
pub mod Device
pub mod Free
pub mod Search
pub mod Sums
pub mod Blocks
pub mod Alloc
pub mod Inodes
pub mod AllocInode
use ufson_mac_os.Base.{
  ℕ, zero, suc, ◌+◌, ◌-◌, ◌*◌, ◌/◌, ◌%◌, Bool, true, false, ◌&&◌, Option, none, some, List, [], ◌∷◌,
}
use ufson_mac_os.Base.{
  ltb, ◌==◌, if◌then◌else◌, get_or, set, replicate, add32, sub32, minus_one, bit_and, ◌<<<◌,
}
use ufson_mac_os.Base.Int.{ℤ, pos, negsuc}
use ufson_mac_os.Super
use ufson_mac_os.Super.{Fs}
use ufson_mac_os.Ffs.Block.{isblock, clrblock}
use ufson_mac_os.Ffs.Bitmap.{setbit}
use ufson_mac_os.Ffs.Cluster.{clusteracct}
use ufson_mac_os.Libufs.Disk.{Csum, Cg, Uufsd, bwrite}

-- `fragstoblks` and `blkstofrags`
abbrev pub blkstofrags : Fs → ℕ → ℕ
blkstofrags fs blks = blks <<< fs.fragshift

abbrev pub no_csum : Csum
no_csum = record { ndir = 0; nbfree = 0; nifree = 0; nffree = 0 }

-- `fs_cs(fs, cg)`. Past the end, which the caller rules out, it is zeros here.
abbrev pub fs_cs : List Csum → ℕ → Csum
fs_cs csp c = get_or csp c no_csum

abbrev pub u64_mod : ℕ
u64_mod = 0x10000000000000000

abbrev pub add64 : ℕ → ℕ → ℕ
add64 a b = (a + b) % u64_mod

abbrev pub sub64 : ℕ → ℕ → ℕ
sub64 a b = (a + u64_mod - b % u64_mod) % u64_mod

-- The loop of `cgballoc`, with `left` rounds to go.
pub first_block : ℕ → List ℕ → ℕ → ℕ → Option ℕ
first_block frag blksfree zero bno = none
first_block frag blksfree (suc left) bno = elim (isblock frag blksfree bno) [
  | true ↦ some bno
  | false ↦ first_block frag blksfree left (bno + 1)
]

abbrev pub less_block : Csum → Csum
less_block cs = record cs { nbfree = sub32 cs.nbfree 1 }

-- The three counts of free blocks, the maps and the clusters.
unfoldable pub take_block : Uufsd → ℕ → Uufsd
take_block disk bno =
    let cg = disk.cg in
    let fs = disk.fs in
    record disk {
      fs = record fs { fmod = 1 };
      cstotal = record (disk.cstotal) { nbfree = sub64 disk.cstotal.nbfree 1 };
      csp = set disk.csp cg.cgx (less_block (fs_cs disk.csp cg.cgx));
      cg = record cg {
        cs = less_block cg.cs;
        blksfree = clrblock fs.frag cg.blksfree bno;
        clusters = clusteracct fs.contigsumsize cg.clusters bno minus_one;
      };
    }

pub on_block : Uufsd → Option ℕ → ℕ × Uufsd
on_block disk none = (0, disk)
on_block disk (some bno) =
    (Super.cgbase disk.fs disk.cg.cgx + blkstofrags disk.fs bno, take_block disk bno)

pub cgballoc : Uufsd → ℕ × Uufsd
cgballoc disk =
    on_block disk (first_block disk.fs.frag disk.cg.blksfree (disk.fs.fpg / disk.fs.frag) 0)

-- `isclr`
abbrev pub isclr : List ℕ → ℕ → Bool
isclr a i = bit_and (get_or a (i / 8) 0) (1 <<< (i % 8)) == 0

-- The loop of `cgialloc`, with `left` rounds to go.
pub first_inode : List ℕ → ℕ → ℕ → Option ℕ
first_inode inosused zero ino = none
first_inode inosused (suc left) ino = elim (isclr inosused ino) [
  | true ↦ some ino
  | false ↦ first_inode inosused left (ino + 1)
]

abbrev pub less_inode : Csum → Csum
less_inode cs = record cs { nifree = sub32 cs.nifree 1 }

unfoldable pub take_inode : Uufsd → ℕ → ℕ × Uufsd
take_inode disk ino =
    let cg = disk.cg in
    let fs = disk.fs in
    (
      ino + cg.cgx * fs.ipg,
      record disk {
        fs = record fs { fmod = 1 };
        cstotal = record (disk.cstotal) { nifree = sub64 disk.cstotal.nifree 1 };
        csp = set disk.csp cg.cgx (less_inode (fs_cs disk.csp cg.cgx));
        cg = record cg { cs = less_inode cg.cs; irotor = ino; inosused = setbit cg.inosused ino };
      },
    )

-- Whether the block of inodes that `ino` is in has to be written first.
abbrev pub needs_block : Uufsd → ℕ → Bool
needs_block disk ino =
    disk.fs.magic == Super.fs_ufs2_magic
    && ltb disk.cg.initediblk (ino + disk.fs.inopb)
    && ltb disk.cg.initediblk disk.cg.niblk

-- `ino_to_fsba`
abbrev pub ino_to_fsba : Fs → ℕ → ℕ
ino_to_fsba fs x = Super.cgimin fs (x / fs.ipg) + blkstofrags fs (x % fs.ipg / fs.inopb)

-- `if (bwrite(…)) return (0);` and what follows.
pub on_bwrite : ℕ → ℤ × Uufsd → ℕ × Uufsd
on_bwrite ino (negsuc n, disk) = (0, disk)
on_bwrite ino (pos (suc n), disk) = (0, disk)
on_bwrite ino (pos zero, disk) =
    take_inode
      (record disk {
        cg = record (disk.cg) { initediblk = add32 disk.cg.initediblk disk.fs.inopb };
      })
      ino

-- `inodes` is the block of fresh inodes, by the generations that `arc4random` gives them.
module _ (opens : Option ℕ) (pwrite : ℕ → List ℕ → ℕ → Option ℕ) (inodes : List ℕ) where
  pub on_inode : Uufsd → Option ℕ → ℕ × Uufsd
  on_inode disk none = (0, disk)
  on_inode disk (some ino) =
      if needs_block disk ino
      then on_bwrite ino (
          bwrite opens pwrite disk
            (ino_to_fsba disk.fs (disk.cg.cgx * disk.fs.ipg + disk.cg.initediblk)) inodes
            disk.fs.bsize)
      else take_inode disk ino

  pub cgialloc : Uufsd → ℕ × Uufsd
  cgialloc disk = on_inode disk (first_inode disk.cg.inosused disk.fs.ipg 0)
