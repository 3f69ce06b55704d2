-- ===== src/Alloc/Mapsearch.antt =====
-- `ffs_mapsearch` of ufsX/ufs/ffs/ffs_alloc.c, which looks for free fragments in the map of a group,
-- and the `scanc` of ufsX/freebsd/compat/scanc.c that it calls. A map is the list of its bytes. The
-- rotor is that of a group's own fragments and the preference is not negative. `panic` does not return:
-- the two panics are results here.
pub mod Byte
pub mod Sift
pub mod Scan
pub mod Found
use ufson_mac_os.Base.{
  ℕ, zero, suc, ◌+◌, ◌-◌, ◌*◌, ◌/◌, ◌%◌, Bool, true, false, Option, none, some, List, bit_and,
}
use ufson_mac_os.Base.{ltb, ◌==◌, if◌then◌else◌, get_or, u8, ◌<<<◌, ◌>>>◌}
use ufson_mac_os.Super.{howmany}
use ufson_mac_os.Ffs.Tables.{around, inside, fragtbl}

-- The bytes that are left as the loop stops, from byte `i` of the map.
module _ (table : List ℕ) (mask : ℕ) (cp : List ℕ) where
  pub scanc : ℕ → ℕ → ℕ
  scanc zero i = 0
  scanc (suc left) i = elim (bit_and (get_or table (get_or cp i 0) 0) mask == 0) [
    | true ↦ scanc left (i + 1)
    | false ↦ suc left
  ]

abbrev pub scan_mask : ℕ → ℕ → ℕ
scan_mask frag allocsiz = u8 (1 <<< (allocsiz - 1 + frag % 8))

-- `for (pos = 0; pos <= fs->fs_frag - allocsiz; pos++)`, with the rounds that are left.
unfoldable pub place : ℕ → ℕ → ℕ → ℕ → ℕ → Option ℕ
place zero blk pos field subfield = none
place (suc left) blk pos field subfield = elim (bit_and blk field == subfield) [
  | true ↦ some pos
  | false ↦ place left blk (pos + 1) (field <<< 1) (subfield <<< 1)
]

-- One round of the loop over the blocks of a byte: `blk` is what `blkmap` gives.
unfoldable pub place_in : ℕ → ℕ → ℕ → Option ℕ
place_in frag allocsiz blk =
    place (frag - allocsiz + 1) (blk <<< 1) 0 (get_or around allocsiz 0) (get_or inside allocsiz 0)

-- `blkmap`
unfoldable pub blkmap : ℕ → List ℕ → ℕ → ℕ
blkmap frag map loc = bit_and (get_or map (loc / 8) 0 >>> (loc % 8)) (0xff >>> (8 - frag))

-- `for (i = bno + NBBY; bno < i; bno += fs->fs_frag)`: `fs_frag` is at least 1, so that 8 rounds are
-- enough.
module _ (frag allocsiz : ℕ) (blksfree : List ℕ) where
  pub sift : ℕ → ℕ → ℕ → Option ℕ
  sift zero i bno = none
  sift (suc left) i bno = elim (ltb bno i) [
    | false ↦ none
    | true ↦ elim (place_in frag allocsiz (blkmap frag blksfree bno)) [
      | some pos ↦ some (bno + pos)
      | none ↦ sift left i (bno + frag)
    ]
  ]

-- What the search comes to; `found` has the fragment and the new `cg_frotor`.
pub data Search : Type 0 where
  map_corrupted not_in_map : Search
  found : ℕ → ℕ → Search

unfoldable pub sifted : ℕ → Option ℕ → Search
sifted frotor none = not_in_map
sifted frotor (some bno) = found bno frotor

module _ (frag fpg : ℕ) (blksfree : List ℕ) (allocsiz : ℕ) where
  abbrev pub scan_from : ℕ → ℕ → ℕ
  scan_from len start = scanc (fragtbl frag) (scan_mask frag allocsiz) blksfree len start

  -- The byte that the scan stopped at becomes the rotor, and its blocks are gone through.
  unfoldable pub sift_byte : ℕ → Search
  sift_byte byte = sifted (byte * 8) (sift frag allocsiz blksfree 8 (byte * 8 + 8) (byte * 8))

  abbrev pub from_top : ℕ → ℕ → Search
  from_top len loc = if loc == 0 then map_corrupted else sift_byte (len - loc)

  pub from_start : ℕ → ℕ → ℕ → Search
  from_start start len loc =
      if loc == 0
      then from_top (start + 1) (scan_from (start + 1) 0)
      else sift_byte (start + len - loc)

  abbrev pub start_byte : ℕ → ℕ → ℕ
  start_byte frotor bpref = (if bpref == 0 then frotor else bpref % fpg) / 8

  pub mapsearch : ℕ → ℕ → Search
  mapsearch frotor bpref =
      let start = start_byte frotor bpref in
      let len = howmany fpg 8 - start in from_start start len (scan_from len start)
