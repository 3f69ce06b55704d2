-- ===== src/Super/Read/Accept.antt =====
-- Which superblocks `readsuper` of ufsX/ufs/ffs/ffs_subr.c accepts.
use ufson_mac_os.Base.{ℕ, ◌+◌, ◌≤◌, Bool, true, false, none, ◌≡◌, ◌⊎◌, ◌↔◌}
use ufson_mac_os.Base.{refl, arith}
use ufson_mac_os.Super
use ufson_mac_os.Super.Read.{
  World, Reply, got, failed, is_usable, clear_flags, check_hash, judge, on_reply, readsuper,
}

module _ (w : World) where
  -- What `readsuper` asks of the record that it read at `loc`.
  pub record IsUsable (fs : Super.Fs) (loc : ℕ) (isaltsblk : Bool) : Type 0 where
    pub place :
        ((fs.magic ≡ Super.fs_ufs1_magic) × ((isaltsblk ≡ true) ⊎ (loc ≤ 8192)))
        ⊎ ((fs.magic ≡ Super.fs_ufs2_magic) × ((isaltsblk ≡ true) ⊎ (loc ≡ fs.sblockloc)))
    pub groups : 1 ≤ fs.ncg
    pub bsize_min : 4096 ≤ fs.bsize
    pub bsize_max : fs.bsize ≤ w.maxbsize
    pub bsize_fs : Super.roundup 1376 w.dev_bsize ≤ fs.bsize
    pub sbsize_max : fs.sbsize ≤ 8192

  is_usable_sound :
      (fs : Super.Fs) (loc : ℕ) (alt : Bool) → is_usable w fs loc alt ≡ true → IsUsable fs loc alt
  unfolding is_usable
  is_usable_sound fs loc alt h = record {
    place = ground arith;
    groups = ground arith;
    bsize_min = ground arith;
    bsize_max = ground arith;
    bsize_fs = ground arith;
    sbsize_max = ground arith;
  }

  pub is_usable_complete :
      (fs : Super.Fs) (loc : ℕ) (alt : Bool) → IsUsable fs loc alt → is_usable w fs loc alt ≡ true
  unfolding is_usable
  is_usable_complete fs loc alt u = ground arith

  -- The check-hash that the record carries is its own.
  abbrev pub HashHolds : Super.Fs → Type 0
  HashHolds fs = fs.ckhash ≡ Super.calc_sbhash w.crc (clear_flags w fs)

  pub record Accepts (loc : ℕ) (isaltsblk chkhash : Bool) (fs : Super.Fs) : Type 0 where
    pub read : w.read_super loc ≡ got fs
    pub usable : IsUsable fs loc isaltsblk
    pub hash : (chkhash ≡ false) ⊎ HashHolds fs

  judge_sound :
      (fs : Super.Fs) (loc : ℕ) (alt chk : Bool) (live : ℕ)
      → (judge w fs loc alt chk live).error ≡ none
      → (is_usable w fs loc alt ≡ true) × ((chk ≡ false) ⊎ HashHolds fs)
  unfolding judge check_hash clear_flags
  judge_sound fs loc alt chk live h = (ground arith, ground arith)

  judge_complete :
      (fs : Super.Fs) (loc : ℕ) (alt chk : Bool) (live : ℕ)
      → IsUsable fs loc alt
      → (chk ≡ false) ⊎ HashHolds fs
      → (judge w fs loc alt chk live).error ≡ none
  unfolding judge check_hash clear_flags
  judge_complete fs loc alt chk live u h = ground (arith, is_usable_complete fs loc alt u)

  on_reply_sound :
      (reply : Reply Super.Fs) (loc : ℕ) (alt chk : Bool) (live : ℕ)
      → w.read_super loc ≡ reply
      → (on_reply w reply loc alt chk live).error ≡ none
      → (fs : Super.Fs) × Accepts loc alt chk fs
  unfolding on_reply
  on_reply_sound (got fs) loc alt chk live e h =
      let (usable, hash) = judge_sound fs loc alt chk (live + 1) h in
      (fs, record { read = e; usable = is_usable_sound fs loc alt usable; hash = hash })
  on_reply_sound (failed err true) loc alt chk live e h = absurd (ground arith)
  on_reply_sound (failed err false) loc alt chk live e h = absurd (ground arith)

  -- `readsuper` returns no error exactly when the read gives a record with one of the two magic
  -- numbers, at a place that goes with it or as an alternate, with at least one group and block and
  -- superblock sizes within their bounds, whose check-hash holds, after the flags that this kernel
  -- does not maintain are cleared, or is not asked for.
  pub readsuper_iff :
      (loc : ℕ) (alt chk : Bool) (live : ℕ)
      → ((readsuper w loc alt chk live).error ≡ none) ↔ ((fs : Super.Fs) × Accepts loc alt chk fs)
  unfolding readsuper on_reply
  readsuper_iff loc alt chk live = (
    on_reply_sound (w.read_super loc) loc alt chk live refl,
    λ p. rw (p.1.read, on_reply) (judge_complete p.0 loc alt chk (live + 1) p.1.usable p.1.hash),
  )
