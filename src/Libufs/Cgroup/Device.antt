-- ===== src/Libufs/Cgroup/Device.antt =====
-- The routines of libufs/cgroup.c that read and write a cylinder group: `cgget`, `cgread1`, `cgread`,
-- `cgput`, `cgwrite1` and `cgwrite`. The message of `failmsg` is part of what `cgget` and `cgput`
-- give. `pread` and `pwrite` are the device; `crc` is `calculate_crc32c(~0L, …)` over the group.
pub mod Check
pub mod Write
use ufson_mac_os.Base.{ℕ, ◌+◌, ◌*◌, ◌/◌, Bool, true, false, not, ◌||◌, Option, none, some}
use ufson_mac_os.Base.{leb, ◌==◌, if◌then◌else◌, bit_and}
use ufson_mac_os.Base.Int.{ℤ, pos, negsuc}
use ufson_mac_os.Super
use ufson_mac_os.Super.{Fs, Errno}
use ufson_mac_os.Libufs.Disk.{
  Cg, Uufsd, Message, end_of_file, short_read, short_write, checks_failed, read_error,
  unable_to_write, mismatch, strerror,
}

abbrev pub cg_magic : ℕ
cg_magic = 0x090255

-- What `pread` gives: an error, no byte, too few, which it leaves in the buffer, or a group.
pub data Read : Type 0 where
  failed : Errno → Read
  eof : Read
  short : Cg → Read
  full : Cg → Read

-- What `pwrite` gives.
pub data Wrote : Type 0 where
  refused : Errno → Wrote
  partial whole : Wrote

pub record World : Type 0 where
  pub pread : ℕ → Read
  pub pwrite : ℕ → Cg → Wrote
  pub crc : Cg → ℕ

-- What `cgget` gives: `errno` if it returns -1, `failmsg`, and the buffer.
pub record Got : Type 0 where
  pub error : Option Errno
  pub failmsg : Option Message
  pub cg : Cg

-- The byte offset of a group.
pub cg_offset : Fs → ℕ → ℕ
cg_offset fs c = Super.fsbtodb fs (Super.cgtod fs c) * (fs.fsize / Super.fsbtodb fs 1)

-- `errno`, where there is no `failmsg`.
abbrev pub read_text : Errno → Message
read_text Super.eintegrity = checks_failed
read_text Super.eio = read_error
read_text e = strerror e

abbrev pub write_text : Errno → Message
write_text Super.eio = unable_to_write
write_text e = strerror e

module _ (w : World) where
  -- The hash that a group should carry.
  unfoldable pub calc_hash : Fs → Cg → ℕ
  calc_hash fs cg =
      if bit_and fs.metackhash Super.ck_cylgrp == 0
      then cg.ckhash
      else w.crc (record cg { ckhash = 0 })

  -- The condition for EINTEGRITY.
  pub is_bad : Fs → ℕ → Cg → Bool
  is_bad fs c cg =
      not (cg.ckhash == calc_hash fs cg) || not (cg.magic == cg_magic) || not (cg.cgx == c)

  pub check : Fs → ℕ → Cg → Got
  check fs c cg =
      if is_bad fs c cg
      then record { error = some Super.eintegrity; failmsg = none; cg = cg }
      else record { error = none; failmsg = none; cg = cg }

  -- The count is unsigned here, so that -1 is one that is too short.
  pub on_read : Fs → ℕ → Read → Cg → Got
  on_read fs c (failed e) old = record {
    error = some Super.eio;
    failmsg = some short_read;
    cg = old;
  }
  on_read fs c eof old = record { error = some Super.eio; failmsg = some end_of_file; cg = old }
  on_read fs c (short cg) old = record {
    error = some Super.eio;
    failmsg = some short_read;
    cg = cg;
  }
  on_read fs c (full cg) old = check fs c cg

  pub cgget : Fs → ℕ → Cg → Got
  cgget fs c old = on_read fs c (w.pread (cg_offset fs c)) old

  pub on_got : Uufsd → ℕ → Option Errno → Got → ℤ × Uufsd
  on_got disk c none got = (pos 1, record disk { cg = got.cg; lcg = c })
  on_got disk c (some e) got = (
    negsuc 0,
    record disk {
      cg = got.cg;
      error = some (elim got.failmsg [ none ↦ read_text e | some m ↦ m ]);
    },
  )

  pub cgread1 : Uufsd → ℕ → ℤ × Uufsd
  cgread1 disk c = let got = cgget disk.fs c disk.cg in on_got disk c got.error got

  pub cgread : Uufsd → ℤ × Uufsd
  cgread disk =
      if leb disk.fs.ncg disk.ccg
      then (pos 0, disk)
      else cgread1 (record disk { ccg = disk.ccg + 1 }) disk.ccg

  -- The group that `cgput` writes.
  unfoldable pub stamp : Fs → Cg → Cg
  stamp fs cg =
      if bit_and fs.metackhash Super.ck_cylgrp == 0
      then cg
      else record cg { ckhash = w.crc (record cg { ckhash = 0 }) }

  -- The buffer holds `stamp fs cg` afterwards.
  pub cgput : Fs → Cg → Wrote
  cgput fs cg = w.pwrite (cg_offset fs cg.cgx) (stamp fs cg)

  pub on_put : Uufsd → Wrote → ℤ × Uufsd
  on_put disk whole = (pos 0, disk)
  on_put disk partial = (negsuc 0, record disk { error = some short_write })
  on_put disk (refused e) = (negsuc 0, record disk { error = some (write_text e) })

  pub cgwrite1 : Uufsd → ℕ → ℤ × Uufsd
  cgwrite1 disk c =
      if c == disk.cg.cgx
      then on_put (record disk { cg = stamp disk.fs disk.cg }) (cgput disk.fs disk.cg)
      else (negsuc 0, record disk { error = some mismatch })

  pub cgwrite : Uufsd → ℤ × Uufsd
  cgwrite disk = cgwrite1 disk disk.cg.cgx
