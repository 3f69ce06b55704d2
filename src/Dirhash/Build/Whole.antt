-- ===== src/Dirhash/Build/Whole.antt =====
-- `ufsdirhash_build` of ufsX/ufs/ufs/ufs_dirhash.c as a whole.
use native.Mathlib.Nat.{mod-lt}
use ufson_mac_os.Base.{
  length, ltb, Bool, true, false, Bool-cases, Option, none, some, inl, inr, ◌/◌, ◌⊎◌, ℕ, ◌+◌, ◌*◌,
  ◌%◌, ◌≤◌, ◌<◌, ◌≡◌, ◌≢◌, refl, arith,
}
use ufson_mac_os.Dirhash.{Name, After, kept, freed, lost, dirblksiz, directsiz}
use ufson_mac_os.Dirhash.Recycle.{Memory, Recycles, recycle-Recycles}
use ufson_mac_os.Dirhash.Words.{howmany}
use ufson_mac_os.Dirhash.Block.{Directory}
use ufson_mac_os.Dirhash.Block.Entries.{Leads, here}
use ufson_mac_os.Dirhash.Build.{
  arrays_for, blank, nblkoff, Created, no_memory, hashed, bare, Setting, Built, refused, present,
  built, endless, is_unsuited, request, has_memory, on_fill, tables, on_recycled, reserve,
  on_created, start, build,
}
use ufson_mac_os.Dirhash.Build.Blank.{blank-IsValid, blank-IsIndexed}
use ufson_mac_os.Dirhash.Build.Fill.{is_bad, home, IsFilled, Fills, fill-Fills}

enough_slots : (size : ℕ) → 12 ≤ size → size < arrays_for size * nblkoff * 12
unfolding arrays_for directsiz
enough_slots size big = omega arith

module _ (fnv : Name → ℕ) (dir : Directory) (some_block : 0 < dir.size)
    (whole : dir.size % dirblksiz ≡ 0)
    (wide : (p : ℕ)
      → Leads dir 0 p
      → p < dir.size
      → (dir.direct p).ino ≢ 0
      → 12 ≤ (dir.direct p).reclen) where
  abbrev pub limit : ℕ
  limit = arrays_for dir.size * nblkoff

  roomy : dir.size < limit * 12
  roomy = enough_slots dir.size (omega arith)

  blank_start :
      IsFilled fnv dir limit roomy whole wide 0
        (blank (arrays_for dir.size) (howmany dir.size dirblksiz))
  unfolding blank
  blank_start =
      let slots : 0 < arrays_for dir.size = (let many = roomy in omega arith) in
      let valid =
        blank-IsValid (arrays_for dir.size) (howmany dir.size dirblksiz) slots (home fnv dir limit)
          (λ o. let many = roomy in mod-lt (fnv (dir.direct o).name) (omega arith)) in
      record {
        table = valid.0.table;
        slots = refl;
        few = omega arith;
        index =
            blank-IsIndexed (arrays_for dir.size) (howmany dir.size dirblksiz) slots (omega arith);
        blocks = refl;
        lead = here;
        low = omega arith;
        holds = λ p.
            (λ held. absurd (valid.1 p held), λ listed. absurd (let low = listed.1 in omega arith));
      }

  -- What stops a build before the first entry, or at an entry.
  abbrev pub Refusal : Setting → Memory → Type 0
  Refusal s m =
      (is_unsuited s dir ≡ true)
      ⊎ (s.created ≡ no_memory)
      ⊎ (s.maxmem < request s dir.size + m.used)
      ⊎ (has_memory s (arrays_for dir.size) ≡ false)
      ⊎ ((p : ℕ) × Leads dir 0 p × (p < dir.size) × (is_bad dir p ≡ true))

  -- How `ufsdirhash_build` ends.
  abbrev pub Builds : Setting → Memory → Built → Type 0
  Builds s m endless = ⊥
  Builds s m refused = Refusal s m
  Builds s m present = (is_unsuited s dir ≡ false) × (s.created ≡ hashed)
  Builds s m (built dh) =
      (is_unsuited s dir ≡ false)
      × (s.created ≡ bare)
      × (has_memory s (arrays_for dir.size) ≡ true)
      × Fills fnv dir limit (kept dh)

  module _ (s : Setting) (m : Memory) where
    filled :
        (a : After)
        → Fills fnv dir limit a
        → is_unsuited s dir ≡ false
        → s.created ≡ bare
        → has_memory s (arrays_for dir.size) ≡ true
        → Builds s m (on_fill fnv a)
    filled (kept dh) done suits fresh memory = (suits, fresh, memory, done)
    filled freed stop suits fresh memory = inr (inr (inr (inr stop)))
    filled lost stop suits fresh memory = stop

    tables-Builds : is_unsuited s dir ≡ false → s.created ≡ bare → Builds s m (tables fnv s dir)
    unfolding tables
    tables-Builds suits fresh = elim (Bool-cases (has_memory s (arrays_for dir.size))) [
      | inl t ↦
          rw (t, tables)
            (filled _
              (fill-Fills fnv dir limit roomy whole wide (dir.size + 1) 0
                (blank (arrays_for dir.size) (howmany dir.size dirblksiz)) (omega arith)
                blank_start)
              suits fresh t)
      | inr f ↦ rw (f, tables) (inr (inr (inr (inl f))))
    ]

    on_recycled-Builds :
        (n : Memory) (o : Option (Bool × Memory))
        → Recycles (request s dir.size) s.maxmem n o
        → s.maxmem < request s dir.size + m.used
        → is_unsuited s dir ≡ false
        → s.created ≡ bare
        → Builds s m (on_recycled fnv s dir o)
    on_recycled-Builds n none is over suits fresh = is
    on_recycled-Builds n (some (false, k)) is over suits fresh = inr (inr (inl over))
    on_recycled-Builds n (some (true, k)) is over suits fresh = tables-Builds suits fresh

    reserve-Builds :
        (n : Memory)
        → n.used ≤ m.used
        → is_unsuited s dir ≡ false
        → s.created ≡ bare
        → Builds s m (reserve fnv s dir n)
    unfolding reserve
    reserve-Builds n less suits fresh =
        elim (Bool-cases (ltb s.maxmem (request s dir.size + n.used))) [
          | inr within ↦ rw (within, reserve) (tables-Builds suits fresh)
          | inl t ↦
              let over : s.maxmem < request s dir.size + m.used = ground (arith, less) in
              elim (Bool-cases (ltb (s.maxmem / 2) (request s dir.size))) [
                | inl large ↦ rw (t, large, reserve) (inr (inr (inl over)))
                | inr small ↦
                    rw (t, small, reserve)
                      (on_recycled-Builds n _
                        (recycle-Recycles (length n.hashes + 1) (request s dir.size) s.maxmem n
                          (omega arith))
                        over suits fresh)
              ]
        ]

    on_created-Builds :
        (n : Memory)
        → n.used ≤ m.used
        → is_unsuited s dir ≡ false
        → (c : Created) → s.created ≡ c
        → Builds s m (on_created fnv s dir n c)
    on_created-Builds n less suits no_memory e = inr (inl e)
    on_created-Builds n less suits hashed e = (suits, e)
    on_created-Builds n less suits bare e = reserve-Builds n less suits e

    start-Builds :
        (o : Option (Bool × Memory)) → Recycles 0 s.maxmem m o → Builds s m (start fnv s dir o)
    unfolding start
    start-Builds none is = is
    start-Builds (some (false, n)) (over, less) = inr (inr (inl (omega (arith, over, less))))
    start-Builds (some (true, n)) (fits, less, same) = elim (Bool-cases (is_unsuited s dir)) [
      | inl t ↦ rw (t, start) (inl t)
      | inr f ↦ rw (f, start) (on_created-Builds n less f s.created refl)
    ]

    -- ufsdirhash_build of a directory of whole blocks, whose entries in use have the 12 bytes of
    -- the shortest entry, and whose size and memory, with that in use, fit an int, ends. It returns
    -- -1 only if the directory is too small, of the old format or without links, ufsdirhash_create
    -- gives nothing, the memory for the hash and that in use are more than the limit, an allocation
    -- fails, or an entry of the chain cannot be read or is corrupted. It returns 0 otherwise:
    -- either ufsdirhash_create has found a hash, or a new one is built, for which every allocation
    -- succeeded, that is valid, holds exactly the offsets of the entries in use of the chain, and
    -- indexes the first block of each class of free words.
    pub build-Builds :
        dir.size < 0x80000000
        → request s dir.size + m.used < 0x80000000
        → Builds s m (build fnv s m dir)
    unfolding build
    build-Builds fits small =
        start-Builds _ (recycle-Recycles (length m.hashes + 1) 0 s.maxmem m (omega arith))
