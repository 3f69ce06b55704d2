-- ===== src/Libufs/Cgroup/Device/Check.antt =====
-- The groups that `cgget` of libufs/cgroup.c takes, and those that `cgput` writes.
use ufson_mac_os.Base.{ℕ, false, none, some, bit_and, ◌==◌, Bool-cases}
use ufson_mac_os.Base.{◌≡◌, ◌≢◌, ◌⊎◌, refl, ap, sym, subst, ◌∙◌, arith, inl, inr}
use ufson_mac_os.Base.Int.{ℤ, pos, negsuc}
use ufson_mac_os.Super
use ufson_mac_os.Super.{Fs, Errno}
use ufson_mac_os.Libufs.Disk.{Cg, Uufsd, Message, checks_failed, short_read, end_of_file}
use ufson_mac_os.Libufs.Cgroup.Device.{
  World, Read, failed, eof, short, full, Got, cg_magic, cg_offset,
}
use ufson_mac_os.Libufs.Cgroup.Device.{
  calc_hash, is_bad, check, on_read, cgget, on_got, cgread1, stamp,
}

module _ (w : World) where
  -- The group that is read is the one asked for, and is intact.
  pub record IsGroup (fs : Fs) (c : ℕ) (cg : Cg) : Type 0 where
    pub read : w.pread (cg_offset fs c) ≡ full cg
    pub hash : cg.ckhash ≡ calc_hash w fs cg
    pub magic : cg.magic ≡ cg_magic
    pub cgx : cg.cgx ≡ c

  -- What `cgread1` gives.
  abbrev pub Reads : Uufsd → ℕ → ℤ × Uufsd → Type 0
  Reads disk c r =
      ((r.0 ≡ pos 1) × (cg : Cg) × IsGroup disk.fs c cg × (r.1 ≡ record disk { cg = cg; lcg = c }))
      ⊎ ((r.0 ≡ negsuc 0)
          × (r.1.error ≢ none)
          × ((cg : Cg) → IsGroup disk.fs c cg → ⊥)
          × (r.1 ≡ record disk { cg = r.1.cg; error = r.1.error }))

  some-ne-none : (m : Message) → some m ≢ none
  some-ne-none m h = cc

  pub full-injective : (a b : Cg) → full a ≡ full b → a ≡ b
  full-injective a b e = ap (λ r. elim r [ full cg ↦ cg | _ ↦ a ]) e

  -- What `cgread1` makes of a buffer that was read.
  Follows : Uufsd → ℕ → Got → Type 0
  Follows disk c got = Reads disk c (on_got w disk c got.error got)

  check-Follows :
      (disk : Uufsd) (c : ℕ) (cg : Cg)
      → w.pread (cg_offset disk.fs c) ≡ full cg
      → Follows disk c (check w disk.fs c cg)
  unfolding check Follows on_got is_bad
  check-Follows disk c cg e = elim (Bool-cases (is_bad w disk.fs c cg)) [
    | inl t ↦
        rw (t, check)
          (inr (
            refl,
            some-ne-none checks_failed,
            λ other g.
                let same : other ≡ cg = full-injective other cg (sym g.read ∙ e) in
                let good : IsGroup disk.fs c cg = subst (λ x. IsGroup disk.fs c x) same g in
                absurd (ground (arith, good.hash, good.magic, good.cgx)),
            refl,
          ))
    | inr f ↦
        let good : IsGroup disk.fs c cg = record {
          read = e;
          hash = ground arith;
          magic = ground arith;
          cgx = ground arith;
        } in
        rw (f, check) (inl (refl, cg, good, refl))
  ]

  on_read-Follows :
      (disk : Uufsd) (c : ℕ) (reply : Read)
      → w.pread (cg_offset disk.fs c) ≡ reply
      → Follows disk c (on_read w disk.fs c reply disk.cg)
  unfolding on_read Follows on_got
  on_read-Follows disk c (failed err) e =
      inr (refl, some-ne-none short_read, λ cg g. absurd (let h = sym g.read ∙ e in cc), refl)
  on_read-Follows disk c eof e =
      inr (refl, some-ne-none end_of_file, λ cg g. absurd (let h = sym g.read ∙ e in cc), refl)
  on_read-Follows disk c (short part) e =
      inr (refl, some-ne-none short_read, λ cg g. absurd (let h = sym g.read ∙ e in cc), refl)
  on_read-Follows disk c (full cg) e = check-Follows disk c cg e

  -- `cgread1` returns 1 exactly when the device gives a whole group with the magic number, the
  -- number asked for and, if groups carry one, the right hash; then that group is in memory and is
  -- marked as the last one read. Otherwise it returns -1 with a message, and changes nothing but
  -- the message and the buffer.
  pub cgread1-Reads : (disk : Uufsd) (c : ℕ) → Reads disk c (cgread1 w disk c)
  unfolding cgread1 cgget Follows
  cgread1-Reads disk c = on_read-Follows disk c (w.pread (cg_offset disk.fs c)) refl

  stamp-hash : (fs : Fs) (cg : Cg) → (stamp w fs cg).ckhash ≡ calc_hash w fs (stamp w fs cg)
  unfolding stamp calc_hash
  stamp-hash fs cg = elim (Bool-cases (bit_and fs.metackhash Super.ck_cylgrp == 0)) [
    | inl t ↦ rw t refl
    | inr f ↦ rw f refl
  ]

  pub stamp-same :
      (fs : Fs) (cg : Cg) → stamp w fs cg ≡ record cg { ckhash = (stamp w fs cg).ckhash }
  unfolding stamp
  stamp-same fs cg = elim (Bool-cases (bit_and fs.metackhash Super.ck_cylgrp == 0)) [
    | inl t ↦ rw t refl
    | inr f ↦ rw f refl
  ]

  -- The group that `cgput` writes is one that `cgget` takes from the place that it was written to,
  -- if the group in memory has the magic number.
  pub cgget-stamp :
      (fs : Fs) (cg old : Cg)
      → cg.magic ≡ cg_magic
      → w.pread (cg_offset fs cg.cgx) ≡ full (stamp w fs cg)
      → cgget w fs cg.cgx old ≡ record { error = none; failmsg = none; cg = stamp w fs cg }
  unfolding cgget on_read check is_bad
  cgget-stamp fs cg old m e =
      let number = ap (λ (x : Cg). x.cgx) (stamp-same fs cg) in
      let magic = ap (λ (x : Cg). x.magic) (stamp-same fs cg) ∙ m in
      let good : is_bad w fs cg.cgx (stamp w fs cg) ≡ false =
        ground (arith, stamp-hash fs cg, number, magic) in
      rw (e, on_read, good) refl
