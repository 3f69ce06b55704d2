-- ===== src/Super/Read.antt =====
-- `readsuper` and `ffs_sbget` of ufsX/ufs/ffs/ffs_subr.c, as libufs compiles them, where `panic`
-- and `log_debug` are empty. What the code allocates and frees is the count `live` of blocks of
-- memory that are in use.
pub mod Accept
pub mod Memory
pub mod Total
pub mod Search
use ufson_mac_os.Base.{
  ℕ, zero, suc, ◌+◌, ◌-◌, ◌*◌, ◌%◌, Bool, true, false, ◌&&◌, ◌||◌, Option, none, some,
}
use ufson_mac_os.Base.{
  List, [], ◌∷◌, ◌++◌, bit_and, bit_or, leb, ltb, ◌==◌, if◌then◌else◌, replicate, take, not,
  u32_mod,
}
use ufson_mac_os.Base.Int.{ℤ, pos, negsuc}
use ufson_mac_os.Super

-- What a call of the read function gives: the data, or an error and whether the buffer that it
-- allocated is left behind.
pub data Reply {ℓ} (A : Type ℓ) : Type ℓ where
  got : A → Reply A
  failed : Super.Errno → Bool → Reply A

-- The world that the code runs in: the read function at an offset, for a superblock and for a
-- number of summary bytes, the two `malloc` calls, the check-hash, and two constants of
-- <sys/param.h>.
pub record World : Type 0 where
  pub read_super : ℕ → Reply Super.Fs
  pub read_data : ℕ → ℕ → Reply (List ℕ)
  pub malloc_si : Bool
  pub malloc_space : Bool
  pub crc : Super.Fs → ℕ
  pub maxbsize : ℕ
  pub dev_bsize : ℕ

-- A pointer to a superblock: null, a buffer that no read has filled, or a record.
pub data Pointer : Type 0 where
  null unread : Pointer
  to : Super.Fs → Pointer

-- What a function returns: the error, `*fsp`, and the blocks in use.
pub record Result : Type 0 where
  pub error : Option Super.Errno
  pub fs : Pointer
  pub live : ℕ

-- `sblock_try`
abbrev pub sblock_try : List ℕ
sblock_try = 65536 ∷ 8192 ∷ 0 ∷ 262144 ∷ []

module _ (w : World) where
  open w use {read_super, read_data, malloc_si, malloc_space, crc, maxbsize, dev_bsize}

  -- The condition on the fields.
  pub is_usable : Super.Fs → ℕ → Bool → Bool
  is_usable fs sblockloc isaltsblk =
      (fs.magic == Super.fs_ufs1_magic && (isaltsblk || leb sblockloc 8192)
        || fs.magic == Super.fs_ufs2_magic && (isaltsblk || sblockloc == fs.sblockloc))
      && leb 1 fs.ncg
      && leb Super.minbsize fs.bsize
      && leb fs.bsize maxbsize
      && leb (Super.roundup Super.sizeof_fs dev_bsize) fs.bsize
      && leb fs.sbsize Super.sblocksize

  -- The flags that this kernel does not maintain are cleared.
  unfoldable pub clear_flags : Super.Fs → Super.Fs
  clear_flags fs =
      let metackhash = if bit_and fs.flags Super.fs_metackhash == 0 then 0 else fs.metackhash in
      record fs {
        metackhash = bit_and metackhash Super.ck_supported;
        flags = bit_and fs.flags Super.fs_supported;
      }

  -- The check-hash test, on the record with its flags cleared.
  unfoldable pub check_hash : Super.Fs → ℕ → Bool → ℕ → Result
  check_hash fs sblockloc chkhash live =
      if fs.ckhash == Super.calc_sbhash crc fs
      then record {
        error = none;
        fs = to (record fs { sblockactualloc = sblockloc; si = none });
        live = live;
      }
      else if chkhash
      then record { error = some Super.estale; fs = to (record fs { fmod = 0 }); live = live }
      else record {
        error = none;
        fs = to (record fs { flags = bit_or fs.flags Super.fs_needsfsck; fmod = 1 });
        live = live;
      }

  -- The tests, on a record that was read.
  unfoldable pub judge : Super.Fs → ℕ → Bool → Bool → ℕ → Result
  judge fs sblockloc isaltsblk chkhash live =
      if fs.magic == Super.fs_bad_magic
      then record { error = some Super.einval; fs = to fs; live = live }
      else if is_usable fs sblockloc isaltsblk
      then check_hash (clear_flags fs) sblockloc chkhash live
      else record { error = some Super.enoent; fs = to fs; live = live }

  unfoldable pub on_reply : Reply Super.Fs → ℕ → Bool → Bool → ℕ → Result
  on_reply (failed e kept) sblockloc isaltsblk chkhash live =
      if kept
      then record { error = some e; fs = unread; live = live + 1 }
      else record { error = some e; fs = null; live = live }
  on_reply (got fs) sblockloc isaltsblk chkhash live =
      judge fs sblockloc isaltsblk chkhash (live + 1)

  unfoldable pub readsuper : ℕ → Bool → Bool → ℕ → Result
  readsuper sblockloc isaltsblk chkhash live =
      on_reply (read_super sblockloc) sblockloc isaltsblk chkhash live

-- `if (fs != NULL) UFS_FREE(fs)`
abbrev pub release : Result → ℕ
release r = elim r.fs [ null ↦ r.live | _ ↦ r.live - 1 ]

abbrev pub is_enoent : Super.Errno → Bool
is_enoent Super.enoent = true
is_enoent _ = false

-- How the loop over the summary ends, with the bytes that are left in `space`; `stuck` is out of
-- fuel, or a write past the end of `space`.
pub data Load : Type 0 where
  loaded : List ℕ → ℕ → ℕ → Load
  failed : Super.Errno → ℕ → Load
  stuck : Load

-- One round of that loop, after the read: the buffer is copied and freed, and `rest` goes on.
pub on_data : Reply (List ℕ) → ℕ → List ℕ → ℕ → ℕ → (List ℕ → ℕ → ℕ → Load) → Load
on_data (got buf) size space room live rest =
    if ltb room size then stuck else rest (space ++ take size buf) (room - size) (live + 1 - 1)
on_data (Reply.failed e kept) size space room live rest =
    failed e (if kept then live + 1 - 1 else live)

module _ (w : World) where
  open w use {read_super, read_data, malloc_si, malloc_space, crc, maxbsize, dev_bsize}

  -- The loop over `sblock_try`: what follows a try, where `rest` goes on with the blocks in use.
  pub next_try : Option Super.Errno → Result → (ℕ → Result) → Result
  next_try none r rest = r
  next_try (some e) r rest = elim (is_enoent e) [
    | true ↦ rest (release r)
    | false ↦ record { error = some e; fs = null; live = release r }
  ]

  pub search : List ℕ → Bool → ℕ → Result
  search [] chkhash live = record { error = some Super.enoent; fs = null; live = live }
  search (loc ∷ rest) chkhash live =
      let r = readsuper w loc false chkhash live in next_try r.error r (search rest chkhash)

  -- The loop over the summary blocks: `space` is what it has copied, with room for `room` more.
  module _ (fs : Super.Fs) (blks : ℕ) where
    pub chunk_size : ℕ → ℕ
    chunk_size i = if ltb blks (i + fs.frag) then (blks - i) * fs.fsize else fs.bsize

    pub load : ℕ → ℕ → List ℕ → ℕ → ℕ → Load
    load zero i space room live = stuck
    load (suc fuel) i space room live = elim (ltb i blks) [
      | false ↦ loaded space room live
      | true ↦
          on_data (read_data (Super.fsbtodb fs (fs.csaddr + i) * dev_bsize) (chunk_size i))
            (chunk_size i) space room live (load fuel (i + fs.frag))
    ]

  -- The bytes of the tables after the summary, and those that are asked of `malloc`, as an `int`.
  pub tables_size : Super.Fs → ℕ
  tables_size fs = (if ltb 0 fs.contigsumsize then fs.ncg * 4 else 0) + fs.ncg

  pub space_size : Super.Fs → ℕ
  space_size fs = (fs.cssize + tables_size fs) % u32_mod

  -- The end of `ffs_sbget`, after the loop, which fills the two tables.
  pub summarise : Super.Fs → Load → Option Result
  summarise fs stuck = none
  summarise fs (failed e live) = some (record { error = some e; fs = null; live = live - 3 })
  summarise fs (loaded space room live) =
      let si : Super.Summary = record {
        csp = some space;
        maxcluster = if ltb 0 fs.contigsumsize then replicate fs.ncg fs.contigsumsize else [];
        contigdirs = replicate fs.ncg 0;
      } in
      if ltb room (tables_size fs)
      then none
      else some (record { error = none; fs = to (record fs { si = some si }); live = live })

  -- The summary, for a superblock that was read; `howmany` divides by `fs_fsize`. `blks + 1` rounds are enough if `fs_frag` is not 0.
  pub fill : Super.Fs → ℕ → Option Result
  fill fs live =
      let blks = Super.howmany fs.cssize fs.fsize in
      if fs.fsize == 0
      then none
      else if not malloc_si
      then some (record { error = some Super.enospc; fs = null; live = live - 1 })
      else if not malloc_space
      then some (record { error = some Super.enospc; fs = null; live = live + 1 - 1 - 1 })
      else summarise fs (load fs blks (blks + 1) 0 [] (space_size fs) (live + 2))

  -- What follows the reading of the superblock.
  pub with_super : Pointer → ℕ → Option Result
  with_super null live = none
  with_super unread live = none
  with_super (to fs) live = fill fs live

  pub after_read : Option Super.Errno → Result → Option Result
  after_read (some e) r = some (record { error = some e; fs = null; live = r.live })
  after_read none r = with_super r.fs r.live

  pub alternate : Option Super.Errno → Result → Option Result
  alternate (some e) r = some (record { error = some e; fs = null; live = release r })
  alternate none r = with_super r.fs r.live

  -- `none` is a call that does not return. A negative `altsblock` asks for the standard places.
  pub sbget : ℤ → ℕ → Option Result
  sbget (pos loc) live = let r = readsuper w loc true false live in alternate r.error r
  sbget (negsuc n) live =
      let r = search sblock_try (if n == 1 then false else true) live in after_read r.error r
