-- ===== src/Dirhash/Build.antt =====
-- `ufsdirhash_build` of ufsX/ufs/ufs/ufs_dirhash.c. What `ufsdirhash_create` gives, what the calls
-- for memory give and what `UFS_BLKATOFF` can read are inputs, and so are the format and the links of
-- the directory and the limits. The size of a directory and the memory asked for fit an `int`.
pub mod Blank
pub mod Chain
pub mod Enter
pub mod Fill
pub mod Whole
use ufson_mac_os.Base.{
  ℕ, zero, suc, ◌+◌, ◌-◌, ◌*◌, ◌/◌, ◌%◌, Bool, true, false, not, ◌&&◌, ◌||◌, Option, none, some,
  List,
}
use ufson_mac_os.Base.{ltb, ◌==◌, if◌then◌else◌, replicate, set, length}
use ufson_mac_os.Dirhash.{
  Entry, empty, at, Dirhash, Name, After, kept, freed, lost, entry, is_empty, scan, hash, adjfree,
  minus, directsiz, dirblksiz, nfstats,
}
use ufson_mac_os.Dirhash.Recycle.{Memory, recycle}
use ufson_mac_os.Dirhash.Words.{all_words, howmany}
use ufson_mac_os.Dirhash.Block.{Directory}
use ufson_mac_os.Dirhash.Lookup.{is_corrupted}

-- DH_NBLKOFF and DH_SCOREINIT
abbrev pub nblkoff : ℕ
nblkoff = 256

abbrev pub dh_scoreinit : ℕ
dh_scoreinit = 8

-- Half as many slots again as the directory has room for entries, in whole arrays.
unfoldable pub arrays_for : ℕ → ℕ
unfolding directsiz
arrays_for size = howmany ((size / directsiz 1 * 3 + 1) / 2) nblkoff

-- The tables before the first entry is put in. The words of the blocks that the directory does
-- not have are not set by the code.
unfoldable pub blank : ℕ → ℕ → Dirhash
blank narrays dirblocks = record {
  hash = replicate (narrays * nblkoff) empty;
  narrays = narrays;
  hlen = narrays * nblkoff;
  hused = 0;
  blkfree = replicate ((dirblocks * 3 + 1) / 2) all_words;
  nblk = (dirblocks * 3 + 1) / 2;
  dirblks = dirblocks;
  firstfree = set (replicate (nfstats + 1) none) nfstats (some 0);
  seqoff = none;
  score = dh_scoreinit;
}

-- What `ufsdirhash_create` gives: NULL, a structure with a hash, or one without.
pub data Created : Type 0 where
  no_memory hashed bare : Created

-- `ufs_dirhashmaxmem`, `ufs_mindirhashsize`, OFSFMT, `i_effnlink`, the size of `struct dirhash`, and
-- the outcome of the calls for memory: the two `malloc`s and the allocation of each array.
pub record Setting : Type 0 where
  pub maxmem : ℕ
  pub minsize : ℕ
  pub oldfmt : Bool
  pub effnlink : ℕ
  pub sizeof_dh : ℕ
  pub created : Created
  pub hash_memory : Bool
  pub blkfree_memory : Bool
  pub blkalloc : ℕ → Bool

-- -1, 0 with the hash that is there already, 0 with a new hash; `endless` is a loop that goes on.
pub data Built : Type 0 where
  refused present : Built
  built : Dirhash → Built
  endless : Built

abbrev pub is_unsuited : Setting → Directory → Bool
is_unsuited s dir = ltb dir.size s.minsize || s.oldfmt || s.effnlink == 0

-- `memreqd`, with pointers of 8 bytes, offsets of 4, and counts of 1
unfoldable pub request : Setting → ℕ → ℕ
request s size =
    let narrays = arrays_for size in
    s.sizeof_dh + narrays * 8 + narrays * nblkoff * 4 + (howmany size dirblksiz * 3 + 1) / 2

-- The arrays below `n` could be allocated.
pub all_arrays : (ℕ → Bool) → ℕ → Bool
all_arrays blkalloc zero = true
all_arrays blkalloc (suc n) = all_arrays blkalloc n && blkalloc n

abbrev pub has_memory : Setting → ℕ → Bool
has_memory s narrays = s.hash_memory && s.blkfree_memory && all_arrays s.blkalloc narrays

abbrev pub enter_at : Dirhash → ℕ → Option ℕ → Option Dirhash
enter_at dh pos none = none
enter_at dh pos (some slot) =
    some (record dh { hused = dh.hused + 1; hash = set dh.hash slot (at pos) })

abbrev pub entered : Name → ℕ → Option Dirhash → Option Dirhash
entered name pos none = none
entered name pos (some dh) = some (adjfree dh pos (minus (directsiz (length name))))

abbrev pub go_on : (Dirhash → After) → Option Dirhash → After
go_on rest none = lost
go_on rest (some dh) = rest dh

module _ (fnv : Name → ℕ) where
  -- An entry goes into the first empty slot; `none` is a loop that goes on.
  pub enter : Dirhash → Name → ℕ → Option Dirhash
  enter dh name pos = enter_at dh pos (scan dh.hlen dh.hash dh.hlen is_empty (hash fnv dh name))

  -- The loop over the entries of the directory; `freed` is the jump to `fail`.
  pub fill : ℕ → Directory → ℕ → Dirhash → After
  fill zero dir pos dh = lost
  fill (suc rounds) dir pos dh =
      let rest = fill rounds dir (pos + (dir.direct pos).reclen) in
      let name = (dir.direct pos).name in
      if ltb pos dir.size
      then if not (dir.readable (pos - pos % dir.iosize)) || is_corrupted dir pos
        then freed
        else if (dir.direct pos).ino == 0
        then rest dh
        else go_on rest (entered name pos (enter dh name pos))
      else kept dh

  abbrev pub on_fill : After → Built
  on_fill (kept dh) = built dh
  on_fill freed = refused
  on_fill lost = endless

  pub tables : Setting → Directory → Built
  tables s dir =
      if has_memory s (arrays_for dir.size)
      then on_fill
          (fill (dir.size + 1) dir 0 (blank (arrays_for dir.size) (howmany dir.size dirblksiz)))
      else refused

  abbrev pub on_recycled : Setting → Directory → Option (Bool × Memory) → Built
  on_recycled s dir none = endless
  on_recycled s dir (some (false, m)) = refused
  on_recycled s dir (some (true, m)) = tables s dir

  pub reserve : Setting → Directory → Memory → Built
  reserve s dir m =
      let memreqd = request s dir.size in
      if ltb s.maxmem (memreqd + m.used)
      then if ltb (s.maxmem / 2) memreqd
        then refused
        else on_recycled s dir (recycle (length m.hashes + 1) memreqd s.maxmem m)
      else tables s dir

  abbrev pub on_created : Setting → Directory → Memory → Created → Built
  on_created s dir m no_memory = refused
  on_created s dir m hashed = present
  on_created s dir m bare = reserve s dir m

  pub start : Setting → Directory → Option (Bool × Memory) → Built
  start s dir none = endless
  start s dir (some (false, m)) = refused
  start s dir (some (true, m)) = if is_unsuited s dir then refused else on_created s dir m s.created

  -- The loop before calls `ufsdirhash_recycle` for 0 bytes until the memory in use is within the
  -- limit, which one call achieves, or fails; a call with nothing to do changes nothing.
  pub build : Setting → Memory → Directory → Built
  build s m dir = start s dir (recycle (length m.hashes + 1) 0 s.maxmem m)
