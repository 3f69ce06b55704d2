-- ===== src/Libufs/Disk/Writes.antt =====
-- What `bwrite` and `bread` of libufs/block.c return, and what they leave.
use ufson_mac_os.Base.{
  ℕ, ◌*◌, ◌<◌, Bool, true, false, Option, none, some, [], ◌∷◌, ◌++◌, ◌==◌, Bool-cases,
}
use ufson_mac_os.Base.{◌≡◌, ◌≢◌, ◌⊎◌, ap, sym, subst, if◌then◌else◌, ◌∙◌, refl, arith, inl, inr}
use ufson_mac_os.Base.Int.{ℤ, pos, negsuc}
use mathlib.Core.Option.{some-injective}
use ufson_mac_os.Libufs.Disk.{
  open_failed, write_error, short_write, read_error, end_of_file, short_read_or_error, Uufsd,
  Message, on_open, ufs_disk_write, on_pwrite, after_open, bwrite, on_pread, bread,
}

-- Nothing but `d_error`, MINE_WRITE and the descriptors differs.
abbrev pub Keeps : Uufsd → Uufsd → Type 0
Keeps disk d =
    d ≡ record disk { error = d.error; writable = d.writable; fd = d.fd; closed = d.closed }

-- The descriptor stays, or is the new one and the old one has been closed.
abbrev pub Descriptors : Option ℕ → Uufsd → Uufsd → Type 0
Descriptors opens disk d =
    ((disk.writable ≡ true) ⊎ (opens ≡ none))
      × (d.writable ≡ disk.writable)
      × (d.fd ≡ disk.fd)
      × (d.closed ≡ disk.closed)
    ⊎ (disk.writable ≡ false)
      × (d.writable ≡ true)
      × (opens ≡ some d.fd)
      × (d.closed ≡ disk.closed ++ disk.fd ∷ [])

some-ne-none : (m : Message) → some m ≢ none
some-ne-none m h = cc

module _ {A : Type 0} (opens : Option ℕ) (pwrite : ℕ → A → ℕ → Option ℕ) (disk : Uufsd)
    (blockno : ℕ) (data_ : A) (size : ℕ) where
  -- A whole write, or -1 with an error message.
  abbrev pub Written : ℤ × Uufsd → Type 0
  Written r =
      ((r.0 ≡ pos size)
        × (r.1.error ≡ none)
        × (r.1.writable ≡ true)
        × (pwrite (blockno * disk.bsize) data_ size ≡ some size)
        × ((disk.writable ≡ true) ⊎ (opens ≢ none)))
      ⊎ ((r.0 ≡ negsuc 0)
          × (r.1.error ≢ none)
          × ((pwrite (blockno * disk.bsize) data_ size ≢ some size)
              ⊎ ((disk.writable ≡ false) × (opens ≡ none))))

  abbrev Result : ℤ × Uufsd → Type 0
  Result r = Written r × Keeps disk (r.1) × Descriptors opens disk (r.1)

  on_pwrite-Result :
      (o : Option ℕ) (d : Uufsd)
      → pwrite (blockno * disk.bsize) data_ size ≡ o
      → d.writable ≡ true
      → d.error ≡ none
      → (disk.writable ≡ true) ⊎ (opens ≢ none)
      → Keeps disk d
      → Descriptors opens disk d
      → Result (on_pwrite o size d)
  unfolding on_pwrite
  on_pwrite-Result none d e w clear way k ds = (
    inr (refl, some-ne-none write_error, inl (λ q. cc)),
    ap (λ (x : Uufsd). record x { error = some write_error }) k,
    ds,
  )
  on_pwrite-Result (some cnt) d e w clear way k ds = elim (Bool-cases (cnt == size)) [
    | inl t ↦
        let same : cnt ≡ size = ground arith in
        rw (t, on_pwrite) (inl (ap pos same, clear, w, e ∙ ap some same, way), k, ds)
    | inr f ↦
        let other : cnt ≢ size = ground arith in
        rw (f, on_pwrite)
          (
            inr (
              refl,
              some-ne-none short_write,
              inl (λ q. other (some-injective cnt size (sym e ∙ q))),
            ),
            ap (λ (x : Uufsd). record x { error = some short_write }) k,
            ds,
          )
  ]

  some_fd-ne-none : (fd : ℕ) → some fd ≢ none
  some_fd-ne-none fd h = cc

  on_open-Result :
      (o : Option ℕ)
      → opens ≡ o
      → disk.writable ≡ false
      → Result (after_open opens pwrite (on_open o disk) blockno data_ size)
  unfolding after_open on_open
  on_open-Result none e w =
      (inr (refl, some-ne-none open_failed, inr (w, e)), refl, inl (inr e, refl, refl, refl))
  on_open-Result (some fd) e w =
      on_pwrite-Result _ _ refl refl refl (inr (λ h. some_fd-ne-none fd (sym e ∙ h))) refl
        (inr (w, refl, e, refl))

  ufs_disk_write_lem :
      (b : Bool)
      → disk.writable ≡ b
      → ufs_disk_write opens disk
        ≡ (if b then (pos 0, record disk { error = none }) else on_open opens disk)
  unfolding ufs_disk_write
  ufs_disk_write_lem b w =
      ap (λ c. if c then (pos 0, record disk { error = none }) else on_open opens disk) w

  -- `bwrite` returns the size and no message exactly when the disk is open for writing, or can be
  -- opened, and the device takes the whole of the data; otherwise it returns -1 and there is a
  -- message. Nothing but the message, the mark that the disk is open for writing and the descriptors
  -- changes: mark and descriptor stay when the disk was open for writing already or cannot be opened;
  -- otherwise the mark is set, the descriptor is the new one, and the old one has been closed.
  pub bwrite-Written :
      Written (bwrite opens pwrite disk blockno data_ size)
      × Keeps disk ((bwrite opens pwrite disk blockno data_ size).1)
      × Descriptors opens disk ((bwrite opens pwrite disk blockno data_ size).1)
  unfolding bwrite after_open
  bwrite-Written = elim (Bool-cases disk.writable) [
    | inl w ↦
        subst (λ x. Result (after_open opens pwrite x blockno data_ size))
          (sym (ufs_disk_write_lem true w))
          (on_pwrite-Result _ _ refl w refl (inl w) refl (inl (inl w, refl, refl, refl)))
    | inr c ↦
        subst (λ x. Result (after_open opens pwrite x blockno data_ size))
          (sym (ufs_disk_write_lem false c)) (on_open-Result opens refl c)
  ]

module _ {A : Type 0} (zeros : A) (size : ℕ) (disk : Uufsd) where
  -- What a read of `size` bytes gives and leaves, by the reply of the device.
  abbrev pub Reads : Option (ℕ × A) → ℤ × A × Uufsd → Type 0
  Reads o r =
      ((data_ : A) × (o ≡ some (size, data_))
        × (r.1 ≡ data_)
        × (r.2 ≡ record disk { error = none }))
      ⊎ (((data_ : A) → o ≢ some (size, data_))
          × (r.1 ≡ zeros)
          × (r.2 ≡ record disk { error = r.2.error })
          × (r.2.error ≢ none))

  on_pread-Reads :
      (o : Option (ℕ × A))
      → 0 < size
      → Reads o (on_pread zeros o size (record disk { error = none }))
  unfolding on_pread
  on_pread-Reads none some_ = inr (λ data_ h. cc, refl, refl, some-ne-none read_error)
  on_pread-Reads (some (cnt, buf)) some_ = elim (Bool-cases (cnt == 0)) [
    | inl t ↦ rw t (
        inr (
          λ data_ h.
              let same = ap (λ p. p.0) (some-injective _ _ h) in absurd (ground (arith, same)),
          refl,
          refl,
          some-ne-none end_of_file,
        ))
    | inr f ↦ elim (Bool-cases (cnt == size)) [
      | inl t ↦
          let same : cnt ≡ size = ground arith in
          rw (f, t) (inl (buf, ap (λ n. some (n, buf)) same, refl, refl))
      | inr g ↦
          rw (f, g)
            (inr (
              λ data_ h.
                  let same = ap (λ p. p.0) (some-injective _ _ h) in absurd (ground (arith, same)),
              refl,
              refl,
              some-ne-none short_read_or_error,
            ))
    ]
  ]

  pub bread-Reads :
      (pread : ℕ → ℕ → Option (ℕ × A)) (blockno : ℕ)
      → 0 < size
      → Reads (pread size (blockno * disk.bsize)) (bread zeros pread disk blockno size)
  unfolding bread
  bread-Reads pread blockno some_ = on_pread-Reads _ some_
