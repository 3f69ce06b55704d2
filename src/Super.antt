-- ===== src/Super.antt =====
-- The superblock: `struct fs` and the macros of ufsX/ufs/ffs/fs.h, and `ffs_calc_sbhash` of
-- ufsX/ufs/ffs/ffs_subr.c. A record holds the fields that the code of this library uses. Fields
-- that the code reads as signed numbers are taken to be not negative; a field without a use is left
-- out. The pointer `fs_si` is an option.
pub mod Read
pub mod Write
use ufson_mac_os.Base.{ℕ, ◌+◌, ◌-◌, ◌*◌, ◌/◌, ◌%◌, List, Option, none, bit_and, ◌==◌, if◌then◌else◌}
use ufson_mac_os.Base.{◌<<<◌, ◌>>>◌}

-- `errno` values; `other` is any that a device returns beside these.
pub data Errno : Type 0 where
  eio enoent enospc einval estale eintegrity edoofus : Errno
  other : ℕ → Errno

-- `struct fs_summary_info`. A null `si_csp` is `none`.
pub record Summary : Type 0 where
  pub csp : Option (List ℕ)
  pub maxcluster : List ℕ
  pub contigdirs : List ℕ

pub record Fs : Type 0 where
  pub sblkno : ℕ
  pub cblkno : ℕ
  pub iblkno : ℕ
  pub old_cgoffset : ℕ
  pub old_cgmask : ℕ
  pub ncg : ℕ
  pub bsize : ℕ
  pub fsize : ℕ
  pub frag : ℕ
  pub fragshift : ℕ
  pub fshift : ℕ
  pub fsbtodb : ℕ
  pub sbsize : ℕ
  pub inopb : ℕ
  pub cssize : ℕ
  pub cgsize : ℕ
  pub ipg : ℕ
  pub fpg : ℕ
  pub fmod : ℕ
  pub clean : ℕ
  pub si : Option Summary
  pub sblockactualloc : ℕ
  pub sblockloc : ℕ
  pub time : ℕ
  pub csaddr : ℕ
  pub ckhash : ℕ
  pub metackhash : ℕ
  pub flags : ℕ
  pub contigsumsize : ℕ
  pub magic : ℕ

abbrev pub fs_ufs1_magic : ℕ
fs_ufs1_magic = 0x011954

abbrev pub fs_ufs2_magic : ℕ
fs_ufs2_magic = 0x19540119

abbrev pub fs_bad_magic : ℕ
fs_bad_magic = 0x19960408

abbrev pub fs_needsfsck : ℕ
fs_needsfsck = 0x00000004

abbrev pub fs_metackhash : ℕ
fs_metackhash = 0x00000200

abbrev pub fs_supported : ℕ
fs_supported = 0x00ffffff

abbrev pub ck_superblock : ℕ
ck_superblock = 0x0001

abbrev pub ck_cylgrp : ℕ
ck_cylgrp = 0x0002

abbrev pub ck_supported : ℕ
ck_supported = 0x0007

-- `sizeof(struct fs)`, which fs.h asserts.
abbrev pub sizeof_fs : ℕ
sizeof_fs = 1376

abbrev pub sblocksize : ℕ
sblocksize = 8192

abbrev pub minbsize : ℕ
minbsize = 4096

-- `howmany` and `roundup`
abbrev pub howmany : ℕ → ℕ → ℕ
howmany x y = (x + (y - 1)) / y

abbrev pub roundup : ℕ → ℕ → ℕ
roundup x y = (x + (y - 1)) / y * y

-- The macros of fs.h. An address that they compute is taken to fit its type.
unfoldable pub fsbtodb : Fs → ℕ → ℕ
fsbtodb fs b = b <<< fs.fsbtodb

unfoldable pub cgbase : Fs → ℕ → ℕ
cgbase fs c = fs.fpg * c

unfoldable pub cgstart : Fs → ℕ → ℕ
unfolding cgbase
cgstart fs c =
    if fs.magic == fs_ufs2_magic
    then cgbase fs c
    else cgbase fs c + fs.old_cgoffset * bit_and c (0xffffffff - fs.old_cgmask)

unfoldable pub cgsblock : Fs → ℕ → ℕ
cgsblock fs c = cgstart fs c + fs.sblkno

unfoldable pub cgtod : Fs → ℕ → ℕ
cgtod fs c = cgstart fs c + fs.cblkno

unfoldable pub cgimin : Fs → ℕ → ℕ
cgimin fs c = cgstart fs c + fs.iblkno

-- The check-hash; `crc` is `calculate_crc32c(~0L, …)` over the record, as a function of it.
unfoldable pub calc_sbhash : (Fs → ℕ) → Fs → ℕ
calc_sbhash crc fs =
    if bit_and fs.metackhash ck_superblock == 0 then fs.ckhash else crc (record fs { ckhash = 0 })
