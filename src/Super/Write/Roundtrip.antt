-- ===== src/Super/Write/Roundtrip.antt =====
-- A superblock that `ffs_sbput` of ufsX/ufs/ffs/ffs_subr.c wrote, and `readsuper`.
use ufson_mac_os.Base.{
  ℕ, ◌+◌, Bool, none, bit_and, ◌≡◌, ◌≢◌, refl, arith, inl, inr, ap, sym, ◌∙◌, Bool-cases, Option,
  ◌==◌, true, false,
}
use mathlib.Core.Path.{ap₂}
use ufson_mac_os.Super
use ufson_mac_os.Super.{Fs}
use ufson_mac_os.Super.Read.{World, got, to, readsuper, on_reply, judge, check_hash, clear_flags}
use ufson_mac_os.Super.Read.Accept.{IsUsable, is_usable_complete}
use ufson_mac_os.Super.Write.{Disk, stamp}

module _ (d : Disk) (w : World) where
  -- A record with no flag that this kernel would clear.
  pub record IsSupported (fs : Fs) : Type 0 where
    pub keeps_hashes : bit_and fs.flags Super.fs_metackhash ≢ 0
    pub hashes : bit_and fs.metackhash Super.ck_supported ≡ fs.metackhash
    pub flags : bit_and fs.flags Super.fs_supported ≡ fs.flags

  clear_flags_supported : (fs : Fs) → IsSupported fs → clear_flags w fs ≡ fs
  unfolding clear_flags
  clear_flags_supported fs s =
      let kept : bit_and fs.flags Super.fs_metackhash == 0 ≡ false =
        let nonzero = s.keeps_hashes in ground arith in
      ap₂ (λ m f. record fs { metackhash = m; flags = f }) (rw kept s.hashes) s.flags

  -- The hash that was stamped is the hash that is computed again.
  calc_sbhash-stamp :
      (fs : Fs) → w.crc ≡ d.crc → Super.calc_sbhash w.crc (stamp d fs) ≡ (stamp d fs).ckhash
  unfolding stamp Super.calc_sbhash
  calc_sbhash-stamp fs same = elim (Bool-cases (bit_and fs.metackhash Super.ck_superblock == 0)) [
    | inl t ↦ rw t
    | inr f ↦ rw (f, same)
  ]

  judge_usable :
      (fs : Fs) (loc : ℕ) (alt chk : Bool) (live : ℕ)
      → IsUsable w fs loc alt
      → judge w fs loc alt chk live ≡ check_hash w (clear_flags w fs) loc chk live
  unfolding judge
  judge_usable fs loc alt chk live u =
      let known : fs.magic == Super.fs_bad_magic ≡ false = let p = u.place in ground arith in
      rw (known, is_usable_complete w fs loc alt u)

  check_hash_holds :
      (fs : Fs) (loc : ℕ) (chk : Bool) (live : ℕ)
      → Super.calc_sbhash w.crc fs ≡ fs.ckhash
      → check_hash w fs loc chk live ≡ record {
        error = none;
        fs = to (record fs { sblockactualloc = loc; si = none });
        live = live;
      }
  unfolding check_hash
  check_hash_holds fs loc chk live h =
      let same : fs.ckhash == fs.ckhash ≡ true = ground arith in rw (h, same)

  stamp-IsSupported : (fs : Fs) → IsSupported fs → IsSupported (stamp d fs)
  unfolding stamp
  stamp-IsSupported fs s = record {
    keeps_hashes = s.keeps_hashes;
    hashes = s.hashes;
    flags = s.flags;
  }

  stamp-si : (fs : Fs) → (stamp d fs).si ≡ none
  unfolding stamp
  stamp-si fs = refl

  -- The round trip of a superblock: if the place at `loc` holds the record that `ffs_sbput` stamps
  -- from `fs`, the record is usable there and carries no flag that this kernel would clear, and both
  -- sides compute the same hash, then `readsuper` returns no error and that record, with its
  -- location filled in, and one more block of memory is in use.
  pub readsuper-stamp :
      (fs : Fs) (loc : ℕ) (alt chk : Bool) (live : ℕ)
      → w.crc ≡ d.crc
      → w.read_super loc ≡ got (stamp d fs)
      → IsUsable w (stamp d fs) loc alt
      → IsSupported fs
      → readsuper w loc alt chk live ≡ record {
        error = none;
        fs = to (record (stamp d fs) { sblockactualloc = loc });
        live = live + 1;
      }
  unfolding readsuper on_reply
  readsuper-stamp fs loc alt chk live same read usable s =
      rw (read, readsuper)
        (judge_usable (stamp d fs) loc alt chk (live + 1) usable
          ∙ ap (λ x. check_hash w x loc chk (live + 1))
              (clear_flags_supported (stamp d fs) (stamp-IsSupported fs s))
          ∙ check_hash_holds (stamp d fs) loc chk (live + 1) (calc_sbhash-stamp fs same)
          ∙ ap
              (λ (x : Option Super.Summary). record {
                error = none;
                fs = to (record (stamp d fs) { sblockactualloc = loc; si = x });
                live = live + 1;
              })
              (sym (stamp-si fs)))
