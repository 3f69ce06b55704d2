-- ===== src/Libufs/Cgroup/Free.antt =====
-- `cgbfree` of libufs/cgroup.c. Addresses and sizes are not negative, and
-- sizes fit an `int`.
pub mod Whole
pub mod Fragments
pub mod Group
use ufson_mac_os.Base.{
  ℕ, zero, suc, ◌+◌, ◌-◌, ◌*◌, ◌/◌, ◌%◌, Bool, true, false, Option, none, some, List,
}
use ufson_mac_os.Base.{
  ltb, ◌==◌, if◌then◌else◌, get_or, set, add32, sub32, minus_one, bit_and, ◌>>>◌,
}
use ufson_mac_os.Base.Int.{ℤ, pos, negsuc}
use ufson_mac_os.Super.{Fs}
use ufson_mac_os.Ffs.Block.{isblock, setblock}
use ufson_mac_os.Ffs.Bitmap.{setbit}
use ufson_mac_os.Ffs.Fragacct.{fragacct}
use ufson_mac_os.Ffs.Cluster.{clusteracct}
use ufson_mac_os.Libufs.Disk.{Csum, Cg, Uufsd, short_read}
use ufson_mac_os.Libufs.Cgroup.{fs_cs, add64, sub64}
use ufson_mac_os.Libufs.Cgroup.Device.{World, cgread1, cgwrite}

-- `fragstoblks`, `numfrags`, `fragnum` and `blkmap` of ufsX/ufs/ffs/fs.h
abbrev pub fragstoblks : Fs → ℕ → ℕ
fragstoblks fs frags = frags >>> fs.fragshift

abbrev pub numfrags : Fs → ℕ → ℕ
numfrags fs loc = loc >>> fs.fshift

abbrev pub fragnum : Fs → ℕ → ℕ
fragnum fs fsb = bit_and fsb (fs.frag - 1)

abbrev pub blkmap : Fs → List ℕ → ℕ → ℕ
blkmap fs map loc = bit_and (get_or map (loc / 8) 0 >>> (loc % 8)) (0xff >>> (8 - fs.frag))

-- `dtog` of ufsX/ufs/ffs/fs.h on a block number that is cut to a signed number of 32 bits; a
-- quotient is rounded to 0, and `none` is a negative one. The remainder by `fs_fpg`, `dtogd`, takes
-- the whole number and fits 32 bits, as `fs_fpg` does.
unfoldable pub dtog : Fs → ℕ → Option ℕ
dtog fs bno =
    let cut = bno % 0x100000000 in
    if ltb cut 0x80000000
    then some (cut / fs.fpg)
    else if ltb (0x100000000 - cut) fs.fpg
    then some 0
    else none

abbrev pub more_block : Csum → Csum
more_block cs = record cs { nbfree = add32 cs.nbfree 1 }

abbrev pub more_frags : ℕ → Csum → Csum
more_frags n cs = record cs { nffree = add32 cs.nffree n }

abbrev pub less_frags : ℕ → Csum → Csum
less_frags n cs = record cs { nffree = sub32 cs.nffree n }

-- One block more in the clusters and in the three counts, of group `c`.
unfoldable pub count_block : Uufsd → ℕ → ℕ → Uufsd
count_block disk c fragno =
    let cg = disk.cg in
    record disk {
      cstotal = record (disk.cstotal) { nbfree = add64 disk.cstotal.nbfree 1 };
      csp = set disk.csp c (more_block (fs_cs disk.csp c));
      cg = record cg {
        cs = more_block cg.cs;
        clusters = clusteracct disk.fs.contigsumsize cg.clusters fragno 1;
      };
    }

-- A whole block.
unfoldable pub free_block : Uufsd → ℕ → ℕ → Uufsd
free_block disk c fragno =
    let cg = disk.cg in
    count_block
      (record disk { cg = record cg { blksfree = setblock disk.fs.frag cg.blksfree fragno } }) c
      fragno

-- `for (i = 0; i < frags; i++) setbit(blksfree, cgbno + i);`: `i` is `cgbno + i` here, and `left` rounds are
-- to go.
pub set_frags : ℕ → ℕ → List ℕ → List ℕ
set_frags zero i blksfree = blksfree
set_frags (suc left) i blksfree = set_frags left (i + 1) (setbit blksfree i)

-- The three counts of fragments.
unfoldable pub add_frags : Uufsd → ℕ → ℕ → Uufsd
add_frags disk c n =
    let cg = disk.cg in
    record disk {
      cstotal = record (disk.cstotal) { nffree = add64 disk.cstotal.nffree n };
      csp = set disk.csp c (more_frags n (fs_cs disk.csp c));
      cg = record cg { cs = more_frags n cg.cs };
    }

unfoldable pub sub_frags : Uufsd → ℕ → ℕ → Uufsd
sub_frags disk c n =
    let cg = disk.cg in
    record disk {
      cstotal = record (disk.cstotal) { nffree = sub64 disk.cstotal.nffree n };
      csp = set disk.csp c (less_frags n (fs_cs disk.csp c));
      cg = record cg { cs = less_frags n cg.cs };
    }

-- The block that a fragment completes is counted as a block.
pub reassemble : Uufsd → ℕ → ℕ → Uufsd
reassemble disk c fragno =
    if isblock disk.fs.frag disk.cg.blksfree fragno
    then count_block (sub_frags disk c disk.fs.frag) c fragno
    else disk

-- A part of a block.
pub free_frags : Uufsd → ℕ → ℕ → ℕ → Uufsd
free_frags disk c cgbno size =
    let fs = disk.fs in
    let cg = disk.cg in
    let bbase = cgbno - fragnum fs cgbno in
    let frags = numfrags fs size in
    let frsum = fragacct fs.frag (blkmap fs cg.blksfree bbase) cg.frsum minus_one in
    let blksfree = set_frags frags cgbno cg.blksfree in
    let counted = add_frags (record disk { cg = record cg { blksfree = blksfree } }) c frags in
    let after = counted.cg in
    reassemble
      (record counted {
        cg = record after { frsum = fragacct fs.frag (blkmap fs blksfree bbase) frsum 1 };
      })
      c (fragstoblks fs bbase)

pub release : Uufsd → ℕ → ℕ → ℕ → Uufsd
release disk c cgbno size =
    if size == disk.fs.bsize
    then free_block disk c (fragstoblks disk.fs cgbno)
    else free_frags disk c cgbno size

module _ (w : World) where
  pub on_group : ℕ → ℕ → ℕ → ℤ × Uufsd → ℤ × Uufsd
  on_group c bno size (pos (suc zero), disk) = cgwrite w (release disk c (bno % disk.fs.fpg) size)
  on_group c bno size (rv, disk) = (negsuc 0, disk)

  -- A negative group lies before the start of the device, where the read fails.
  pub in_group : Uufsd → ℕ → ℕ → Option ℕ → ℤ × Uufsd
  in_group disk bno size none = (negsuc 0, record disk { error = some short_read })
  in_group disk bno size (some c) = on_group c bno size (cgread1 w disk c)

  pub cgbfree : Uufsd → ℕ → ℕ → ℤ × Uufsd
  cgbfree disk bno size = in_group disk bno size (dtog disk.fs bno)
