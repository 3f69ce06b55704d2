-- ===== src/Super/Read/Search.antt =====
-- Which superblock the search of `ffs_sbget` of ufsX/ufs/ffs/ffs_subr.c takes.
use ufson_mac_os.Base.{ℕ, Bool, true, false, Option, none, some, List, [], ◌∷◌, ◌++◌, Bool-cases}
use ufson_mac_os.Base.{◌≡◌, ◌≢◌, ◌⊎◌, refl, sym, ap, ◌∙◌, inl, inr}
use mathlib.Core.Option.{some-injective}
use ufson_mac_os.Super
use ufson_mac_os.Super.Read.{World, Result, release, is_enoent, readsuper, next_try, search}
use ufson_mac_os.Super.Read.Memory.{Held, readsuper-Held}

module _ (w : World) (chkhash : Bool) (live : ℕ) where
  -- What `readsuper` gives at a location.
  abbrev pub try : ℕ → Result
  try loc = readsuper w loc false chkhash live

  -- No location has a superblock.
  abbrev pub AllMiss : List ℕ → Type 0
  AllMiss [] = Unit {0}
  AllMiss (loc ∷ locs) = ((try loc).error ≡ some Super.enoent) × AllMiss locs

  -- The first location whose result is not ENOENT decides.
  pub record Decided (locs : List ℕ) (r : Result) : Type 0 where
    pub before : List ℕ
    pub loc : ℕ
    pub after : List ℕ
    pub split : locs ≡ before ++ loc ∷ after
    pub missed : AllMiss before
    pub hit : (try loc).error ≢ some Super.enoent
    pub error : r.error ≡ (try loc).error
    pub fs : r.error ≡ none → r.fs ≡ (try loc).fs

  abbrev pub Searched : List ℕ → Result → Type 0
  Searched locs r = (AllMiss locs × (r.error ≡ some Super.enoent)) ⊎ Decided locs r

  is_enoent_sound : (e : Super.Errno) → is_enoent e ≡ true → e ≡ Super.enoent
  is_enoent_sound Super.enoent h = refl
  is_enoent_sound Super.eio h = absurd (cc)
  is_enoent_sound Super.enospc h = absurd (cc)
  is_enoent_sound Super.einval h = absurd (cc)
  is_enoent_sound Super.estale h = absurd (cc)
  is_enoent_sound Super.eintegrity h = absurd (cc)
  is_enoent_sound Super.edoofus h = absurd (cc)
  is_enoent_sound (Super.other n) h = absurd (cc)

  is_enoent_complete : (e : Super.Errno) → is_enoent e ≡ false → some e ≢ some Super.enoent
  is_enoent_complete e h p =
      let found = ap is_enoent (some-injective e Super.enoent p) in
      absurd (let q = sym h ∙ found in cc)

  -- A miss gives back the memory that it took.
  released : (loc : ℕ) (e : Super.Errno) → (try loc).error ≡ some e → release (try loc) ≡ live
  released loc e h = go (readsuper-Held w loc false chkhash live)
    where
      go : Held live (try loc) → release (try loc) ≡ live
      go (inl k) = absurd (let q = sym h ∙ k.0 in cc)
      go (inr k) = k.1

  later :
      (loc : ℕ) (locs : List ℕ) (r : Result)
      → (try loc).error ≡ some Super.enoent
      → Searched locs r
      → Searched (loc ∷ locs) r
  later loc locs r m (inl (all, e)) = inl ((m, all), e)
  later loc locs r m (inr d) = inr (record {
    before = loc ∷ d.before;
    loc = d.loc;
    after = d.after;
    split = ap (λ l. loc ∷ l) d.split;
    missed = (m, d.missed);
    hit = d.hit;
    error = d.error;
    fs = d.fs;
  })

  next_try-Searched :
      (loc : ℕ) (locs : List ℕ) (o : Option Super.Errno) (rest : ℕ → Result)
      → (try loc).error ≡ o
      → Searched locs (rest live)
      → Searched (loc ∷ locs) (next_try w o (try loc) rest)
  unfolding next_try
  next_try-Searched loc locs none rest e s = inr (record {
    before = [];
    loc = loc;
    after = locs;
    split = refl;
    missed = tt;
    hit = λ h. absurd (let q = sym e ∙ h in cc);
    error = refl;
    fs = λ h. refl;
  })
  next_try-Searched loc locs (some err) rest e s = elim (Bool-cases (is_enoent err)) [
    | inl t ↦
        let miss : (try loc).error ≡ some Super.enoent = e ∙ ap some (is_enoent_sound err t) in
        let same : release (try loc) ≡ live = released loc err e in
        rw (t, next_try, same) (later loc locs (rest live) miss s)
    | inr f ↦
        rw (f, next_try)
          (inr (record {
            before = [];
            loc = loc;
            after = locs;
            split = refl;
            missed = tt;
            hit = λ h. is_enoent_complete err f (sym e ∙ h);
            error = sym e;
            fs = λ h. absurd (cc);
          }))
  ]

  -- The search through a list of locations returns ENOENT if `readsuper` does at all of them;
  -- otherwise it returns what `readsuper` gives at the first location where that is not ENOENT, and
  -- that superblock if there is no error. The locations are tried with the same memory in use.
  pub search-Searched : (locs : List ℕ) → Searched locs (search w locs chkhash live)
  unfolding search
  search-Searched [] = inl (tt, refl)
  search-Searched (loc ∷ locs) =
      next_try-Searched loc locs (try loc).error (search w locs chkhash) refl (search-Searched locs)
