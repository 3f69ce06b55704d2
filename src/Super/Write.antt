-- ===== src/Super/Write.antt =====
-- `ffs_sbput` of ufsX/ufs/ffs/ffs_subr.c as libufs compiles it, and `sbput` of libufs/sblock.c.
-- What is written is a log of the calls of the write function, with their arguments.
pub mod Order
pub mod Restore
pub mod Roundtrip
pub mod Total
use ufson_mac_os.Base.{
  ℕ, zero, suc, ◌+◌, ◌-◌, ◌*◌, true, false, Option, none, some, List, [], ◌∷◌, ◌++◌,
}
use ufson_mac_os.Base.{ltb, ◌==◌, if◌then◌else◌, take, drop}
use ufson_mac_os.Super
use ufson_mac_os.Super.{Fs, Errno, Summary}

-- What one call writes: summary bytes or a superblock.
pub data Block : Type 0 where
  summary : List ℕ → Block
  super : Fs → Block

abbrev pub Log : Type 0
Log = List (ℕ × Block)

-- The world: the write function, the clock, the check-hash, and DEV_BSIZE.
pub record Disk : Type 0 where
  pub write : ℕ → Block → Option Errno
  pub now : ℕ
  pub crc : Fs → ℕ
  pub dev_bsize : ℕ

-- The state after a call, with the error that it returns.
pub record Put : Type 0 where
  pub error : Option Errno
  pub fs : Fs
  pub log : Log

-- How the writing of the summary ends; `stuck` is out of fuel, or a division by 0.
pub data Store : Type 0 where
  stored : Log → Store
  refused : Errno → Log → Store
  stuck : Store

-- A round of that loop, after the write.
pub on_write : Option Errno → Log → (Log → Store) → Store
on_write none log rest = rest log
on_write (some e) log rest = refused e log

-- `fs->fs_csp`, which is `fs_si->si_csp`, written. No null `fs_si` comes here: `with_si` is the trap.
unfoldable pub csp_in : Option Summary → Option (List ℕ) → Option Summary
csp_in none csp = none
csp_in (some si) csp = some (record si { csp = csp })

pub set_csp : Fs → Option (List ℕ) → Fs
set_csp fs csp = record fs { si = csp_in fs.si csp }

module _ (d : Disk) where
  open d use {write, now, crc, dev_bsize}

  module _ (fs : Fs) (blks : ℕ) where
    pub store_size : ℕ → ℕ
    store_size i = if ltb blks (i + fs.frag) then (blks - i) * fs.fsize else fs.bsize

    pub store : ℕ → ℕ → List ℕ → Log → Store
    store zero i space log = stuck
    store (suc fuel) i space log = elim (ltb i blks) [
      | false ↦ stored log
      | true ↦
          let loc = Super.fsbtodb fs (fs.csaddr + i) * dev_bsize in
          let block = summary (take (store_size i) space) in
          on_write (write loc block) (log ++ (loc, block) ∷ [])
            (store fuel (i + fs.frag) (drop (store_size i) space))
    ]

  -- The summary at `fs_csp`, with the division of `howmany`. `blks + 1` rounds are enough if `fs_frag` is not 0.
  pub put_space : Fs → List ℕ → Log → Store
  put_space fs space log =
      let blks = Super.howmany fs.cssize fs.fsize in
      if fs.fsize == 0 then stuck else store fs blks (blks + 1) 0 space log

  -- The summary, if there is one.
  pub put_summary : Fs → Option Summary → Log → Store
  put_summary fs none log = stored log
  put_summary fs (some si) log = elim si.csp [
    | none ↦ stored log
    | some space ↦ put_space fs space log
  ]

  -- The record that is written: `fs_si` is null while its hash is taken and it is written.
  unfoldable pub stamp : Fs → Fs
  stamp fs =
      let cleared = record fs { fmod = 0; time = now; si = none } in
      record cleared { ckhash = Super.calc_sbhash crc cleared }

  pub put_super : Fs → ℕ → Store → Option Put
  put_super fs loc stuck = none
  put_super fs loc (refused e log) = some (record { error = some e; fs = fs; log = log })
  put_super fs loc (stored log) =
      let written = stamp fs in
      some (record {
        error = write loc (super written);
        fs = record written { si = fs.si };
        log = log ++ (loc, super written) ∷ [];
      })

  -- `ffs_sbput`, after the calls of `log`; `none` is a call that does not return.
  pub ffs_sbput : Fs → ℕ → Log → Option Put
  ffs_sbput fs loc log = put_super fs loc (put_summary fs fs.si log)

  -- The two fields as they were.
  pub put_back : ℕ → Option (List ℕ) → Put → Put
  put_back actualloc csp p = record p {
    fs = set_csp (record (p.fs) { sblockactualloc = actualloc }) csp;
  }

  -- The loop over the alternates from `i` on, with `left` to go. Its results have the two fields
  -- still to be put back.
  pub next_alternate : Option Put → (Fs → Log → Option Put) → Option Put
  next_alternate none rest = none
  next_alternate (some p) rest = elim p.error [ some e ↦ some p | none ↦ rest p.fs p.log ]

  pub alternates : ℕ → ℕ → Fs → Log → Option Put
  alternates zero i fs log = some (record { error = none; fs = fs; log = log })
  alternates (suc left) i fs log =
      let loc = Super.fsbtodb fs (Super.cgsblock fs i) * dev_bsize in
      next_alternate (ffs_sbput (record fs { sblockactualloc = loc }) loc log)
        (alternates left (i + 1))

  -- What follows the first write: the alternates, if any are asked for.
  pub finish : ℕ → Option (List ℕ) → Option Put → Option Put
  finish actualloc csp none = none
  finish actualloc csp (some q) = some (put_back actualloc csp q)

  -- `savedcsp = fs->fs_csp;` and what follows: a null `fs_si` is a trap there.
  pub with_si : ℕ → Put → Option Summary → Option Put
  with_si numaltwrite p none = none
  with_si numaltwrite p (some si) =
      finish p.fs.sblockactualloc si.csp (alternates numaltwrite 0 (set_csp p.fs none) p.log)

  pub after_first : ℕ → Option Errno → Put → Option Put
  after_first numaltwrite (some e) p = some p
  after_first numaltwrite none p =
      if numaltwrite == 0 then some p else with_si numaltwrite p p.fs.si

  pub with_alternates : ℕ → Option Put → Option Put
  with_alternates numaltwrite none = none
  with_alternates numaltwrite (some p) = after_first numaltwrite p.error p

  -- `sbput` of libufs.
  pub sbput : Fs → ℕ → Option Put
  sbput fs numaltwrite = with_alternates numaltwrite (ffs_sbput fs fs.sblockactualloc [])
