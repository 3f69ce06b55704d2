-- ===== src/Dirhash/Build/Fill.antt =====
-- The loop of `ufsdirhash_build` of ufsX/ufs/ufs/ufs_dirhash.c over the entries of a directory.
use ufson_mac_os.Base.{
  ℕ, zero, suc, ◌+◌, ◌-◌, ◌*◌, ◌%◌, ◌≤◌, ◌<◌, Bool, true, false, not, ◌||◌, some, ◌≡◌, ◌≢◌, refl,
  arith, inl, inr, sym, subst, ◌∙◌, ◌↔◌, ap,
}
use ufson_mac_os.Base.{ltb, ◌==◌, ==_iff, Bool-cases, length}
use ufson_mac_os.Dirhash.{
  Dirhash, Name, After, kept, freed, lost, hash, adjfree, directsiz, dirblksiz, minus,
}
use ufson_mac_os.Dirhash.Valid.{IsTable, IsValid, Holds}
use ufson_mac_os.Dirhash.Insert.Add.{Adds}
use ufson_mac_os.Dirhash.Words.{howmany}
use ufson_mac_os.Dirhash.Words.Indexed.{IsIndexed}
use ufson_mac_os.Dirhash.Words.Refile.{adjfree-IsIndexed}
use ufson_mac_os.Dirhash.Block.{Directory}
use ufson_mac_os.Dirhash.Block.Entries.{Leads}
use ufson_mac_os.Dirhash.Lookup.{is_corrupted}
use ufson_mac_os.Dirhash.Build.{enter, entered, fill}
use ufson_mac_os.Dirhash.Build.Chain.{Listed, Leads_snoc, Listed-snoc}
use ufson_mac_os.Dirhash.Build.Enter.{enter-Adds}

-- The slot of an entry, and an entry that stops the build.
abbrev pub is_bad : Directory → ℕ → Bool
is_bad dir pos = not (dir.readable (pos - pos % dir.iosize)) || is_corrupted dir pos

module _ (fnv : Name → ℕ) (dir : Directory) (limit : ℕ) where
  abbrev pub home : ℕ → ℕ
  home o = fnv (dir.direct o).name % limit

  -- What the loop leaves.
  abbrev pub Fills : After → Type 0
  Fills lost = ⊥
  Fills freed = (p : ℕ) × Leads dir 0 p × (p < dir.size) × (is_bad dir p ≡ true)
  Fills (kept dh) = IsValid dh home × IsIndexed dh × ((p : ℕ) → Holds dh p ↔ Listed dir dir.size p)

module _ (fnv : Name → ℕ) (dir : Directory) (limit : ℕ) (roomy : dir.size < limit * 12)
    (whole : dir.size % dirblksiz ≡ 0)
    (wide : (p : ℕ)
      → Leads dir 0 p
      → p < dir.size
      → (dir.direct p).ino ≢ 0
      → 12 ≤ (dir.direct p).reclen) where
  -- The hash holds the entries before `pos`.
  pub record IsFilled (pos : ℕ) (dh : Dirhash) : Type 0 where
    pub table : IsTable dh.hash dh.hlen dh.hused (home fnv dir limit)
    pub slots : dh.hlen ≡ limit
    pub few : dh.hused * 12 ≤ pos
    pub index : IsIndexed dh
    pub blocks : dh.dirblks ≡ howmany dir.size dirblksiz
    pub lead : Leads dir 0 pos
    pub low : pos ≤ dir.size
    pub holds : (p : ℕ) → Holds dh p ↔ Listed dir pos p

  -- An entry that is not corrupted lies within the directory, as its block does.
  length_fits :
      (pos : ℕ)
      → pos < dir.size
      → is_bad dir pos ≡ false
      → (0 < (dir.direct pos).reclen) × (pos + (dir.direct pos).reclen ≤ dir.size)
  length_fits pos lt good =
      fits (dir.direct pos).reclen (not (dir.readable (pos - pos % dir.iosize))) good
    where
      fits :
          (len : ℕ) (unreadable : Bool)
          → (unreadable || (len == 0 || ltb (dirblksiz - pos % dirblksiz) len)) ≡ false
          → (0 < len) × (pos + len ≤ dir.size)
      fits len true good = cc
      fits len false good = ground arith

  not_twice : (pos : ℕ) (dh : Dirhash) → IsFilled pos dh → ¬ Holds dh pos
  not_twice pos dh f held = absurd (let low = ((f.holds pos).0 held).1 in omega arith)

  home_lem :
      (dh : Dirhash)
      → dh.hlen ≡ limit
      → (o : ℕ) → home fnv dir limit o ≡ hash fnv dh (dir.direct o).name
  unfolding hash
  home_lem dh slots o = ap (λ l. fnv (dir.direct o).name % l) (sym slots)

  step :
      (pos : ℕ) (dh : Dirhash)
      → IsFilled pos dh
      → pos < dir.size
      → is_bad dir pos ≡ false
      → (dir.direct pos).ino ≢ 0
      → (new : Dirhash) × (entered
            (dir.direct pos).name
            pos
            (enter fnv dh (dir.direct pos).name pos)
          ≡ some new)
        × IsFilled (pos + (dir.direct pos).reclen) new
  unfolding adjfree
  step pos dh f lt good live =
      let fits = length_fits pos lt good in
      let room : dh.hused < dh.hlen = (let few = f.few in let slots = f.slots in omega arith) in
      let put =
        enter-Adds fnv dh (home fnv dir limit) (dir.direct pos).name pos f.table room
          (not_twice pos dh f) same_home in
      let index =
        adjfree-IsIndexed put.0 pos (minus (directsiz (length (dir.direct pos).name)))
          (put.3 f.index) (let blocks = f.blocks in omega (arith, put.4)) in
      rw (put.1) (
        _,
        refl,
        record {
          table = put.2.valid;
          slots = put.2.same_size ∙ f.slots;
          few =
              (let few = f.few in
                let wide = wide pos f.lead lt live in omega (arith, put.2.one_more));
          index = index.0;
          blocks = put.4 ∙ f.blocks;
          lead = Leads_snoc f.lead fits.0;
          low = fits.1;
          holds = λ p. (forth put.0 put.2 fits.0 p, back put.0 put.2 fits.0 p);
        },
      )
    where
      same_home : home fnv dir limit pos ≡ hash fnv dh (dir.direct pos).name
      same_home = home_lem dh f.slots pos

      forth :
          (new : Dirhash)
          → Adds dh new (home fnv dir limit) pos
          → 0 < (dir.direct pos).reclen
          → (p : ℕ) → Holds new p
          → Listed dir (pos + (dir.direct pos).reclen) p
      forth new adds len p held =
          (Listed-snoc dir pos p f.lead len).1 (elim ((adds.holds p).0 held) [
            | inl same ↦ inl (same, live)
            | inr old ↦ inr ((f.holds p).0 old)
          ])

      back :
          (new : Dirhash)
          → Adds dh new (home fnv dir limit) pos
          → 0 < (dir.direct pos).reclen
          → (p : ℕ) → Listed dir (pos + (dir.direct pos).reclen) p
          → Holds new p
      back new adds len p listed =
          (adds.holds p).1 (elim ((Listed-snoc dir pos p f.lead len).0 listed) [
            | inl both ↦ inl both.0
            | inr old ↦ inr ((f.holds p).1 old)
          ])

  skip :
      (pos : ℕ) (dh : Dirhash)
      → IsFilled pos dh
      → pos < dir.size
      → is_bad dir pos ≡ false
      → (dir.direct pos).ino ≡ 0
      → IsFilled (pos + (dir.direct pos).reclen) dh
  skip pos dh f lt good free =
      let fits = length_fits pos lt good in
      record {
        table = f.table;
        slots = f.slots;
        few = omega (arith, f.few);
        index = f.index;
        blocks = f.blocks;
        lead = Leads_snoc f.lead fits.0;
        low = fits.1;
        holds = λ p. (forth fits.0 p, back fits.0 p);
      }
    where
      forth :
          0 < (dir.direct pos).reclen
          → (p : ℕ) → Holds dh p
          → Listed dir (pos + (dir.direct pos).reclen) p
      forth len p held = (Listed-snoc dir pos p f.lead len).1 (inr ((f.holds p).0 held))

      back :
          0 < (dir.direct pos).reclen
          → (p : ℕ) → Listed dir (pos + (dir.direct pos).reclen) p
          → Holds dh p
      back len p listed = elim ((Listed-snoc dir pos p f.lead len).0 listed) [
        | inl (same, live) ↦ absurd (live free)
        | inr old ↦ (f.holds p).1 old
      ]

  pub fill-Fills :
      (rounds pos : ℕ) (dh : Dirhash)
      → dir.size < pos + rounds
      → IsFilled pos dh
      → Fills fnv dir limit (fill fnv rounds dir pos dh)
  unfolding fill
  fill-Fills zero pos dh many f = absurd (let low = f.low in omega arith)
  fill-Fills (suc rounds) pos dh many f = elim (Bool-cases (ltb pos dir.size)) [
    | inr over ↦
        let end : pos ≡ dir.size = (let low = f.low in ground arith) in
        rw over (
          record {
            table = f.table;
            room = (let few = f.few in let slots = f.slots in omega arith);
          },
          f.index,
          subst (λ q. (p : ℕ) → Holds dh p ↔ Listed dir q p) end f.holds,
        )
    | inl more ↦
        let lt : pos < dir.size = ground arith in
        rw more (elim (Bool-cases (is_bad dir pos)) [
          | inl bad ↦ rw bad (pos, f.lead, lt, bad)
          | inr good ↦
              let fits = length_fits pos lt good in
              rw good (elim (Bool-cases ((dir.direct pos).ino == 0)) [
                | inl free ↦ rw free (
                    fill-Fills rounds (pos + (dir.direct pos).reclen) dh (omega (arith, fits))
                      (skip pos dh f lt good ((==_iff _ 0).0 free)))
                | inr live ↦
                    let put = step pos dh f lt good (ground arith) in
                    rw (live, put.1)
                      (fill-Fills rounds (pos + (dir.direct pos).reclen) put.0 (omega (arith, fits))
                        put.2)
              ])
        ])
  ]
