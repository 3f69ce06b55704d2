-- ===== src/Super/Read/Memory.antt =====
-- The memory that `ffs_sbget` of ufsX/ufs/ffs/ffs_subr.c takes and gives back.
use ufson_mac_os.Base.{
  ℕ, zero, suc, ◌+◌, ◌-◌, Bool, true, false, none, some, Option, List, [], ◌∷◌, ◌++◌,
}
use ufson_mac_os.Base.{
  ◌≡◌, ◌≢◌, ◌⊎◌, sym, refl, arith, if◌then◌else◌, inl, inr, ltb, take, Bool-cases, ◌∙◌, ◌==◌, subst,
  not,
}
use ufson_mac_os.Base.Int.{ℤ, pos, negsuc}
use mathlib.Core.Option.{some-injective}
use ufson_mac_os.Super
use ufson_mac_os.Super.Read.{World, Reply, got, Result, Pointer, null, to, release, is_enoent}
use ufson_mac_os.Super.Read.{
  check_hash, is_usable, judge, on_reply, readsuper, next_try, search, sblock_try, Load, loaded,
  stuck,
}
use ufson_mac_os.Super.Read.{
  chunk_size, on_data, load, tables_size, summarise, fill, with_super, alternate, after_read, sbget,
}

-- On success `*fsp` holds the one block taken so far; on an error `release` gives all back.
abbrev pub Held : ℕ → Result → Type 0
Held live r =
    ((r.error ≡ none) × (fs : Super.Fs) × (r.fs ≡ to fs) × (r.live ≡ live + 1))
    ⊎ ((r.error ≢ none) × (release r ≡ live))

-- The same once an error has released the block.
abbrev pub Settled : ℕ → Result → Type 0
Settled live r =
    ((r.error ≡ none) × (fs : Super.Fs) × (r.fs ≡ to fs) × (r.live ≡ live + 1))
    ⊎ ((r.error ≢ none) × (r.live ≡ live))

-- Three blocks on success (the superblock, `fs_si` and `fs_csp`); none, and a null `*fsp`, on an
-- error.
abbrev pub Balanced : ℕ → Result → Type 0
Balanced live r =
    ((r.error ≡ none) × (r.live ≡ live + 3)) ⊎ ((r.error ≢ none) × (r.live ≡ live) × (r.fs ≡ null))

-- A property of both branches.
pub if_lem {ℓ κ} :
    {A : Type ℓ} (P : A → Type κ) (b : Bool) (x y : A) → P x → P y → P (if b then x else y)
if_lem P true x y p q = p
if_lem P false x y p q = q

pub some-ne-none : (e : Super.Errno) → some e ≢ none
some-ne-none e h = cc

some-ne-none_result : (r : Result) → some r ≢ none
some-ne-none_result r h = cc

module _ (w : World) where
  judge-Held :
      (fs : Super.Fs) (loc : ℕ) (alt chk : Bool) (live : ℕ)
      → Held live (judge w fs loc alt chk (live + 1))
  unfolding judge check_hash
  judge-Held fs loc alt chk live =
      if_lem (Held live) _ _ _ (inr (some-ne-none Super.einval, omega arith)) (
        if_lem (Held live) (is_usable w fs loc alt) _ _
          (if_lem (Held live) _ _ _ (inl (refl, _, refl, refl)) (
            if_lem (Held live) chk _ _ (inr (some-ne-none Super.estale, omega arith))
              (inl (refl, _, refl, refl))))
          (inr (some-ne-none Super.enoent, omega arith)))

  on_reply-Held :
      (reply : Reply Super.Fs) (loc : ℕ) (alt chk : Bool) (live : ℕ)
      → Held live (on_reply w reply loc alt chk live)
  unfolding on_reply
  on_reply-Held (got sb) loc alt chk live = judge-Held sb loc alt chk live
  on_reply-Held (Reply.failed e true) loc alt chk live = inr (some-ne-none e, omega arith)
  on_reply-Held (Reply.failed e false) loc alt chk live = inr (some-ne-none e, refl)

  pub readsuper-Held :
      (loc : ℕ) (alt chk : Bool) (live : ℕ) → Held live (readsuper w loc alt chk live)
  unfolding readsuper
  readsuper-Held loc alt chk live = on_reply-Held (w.read_super loc) loc alt chk live

  next_try-Settled :
      (o : Option Super.Errno) (live : ℕ) (r : Result) (rest : ℕ → Result)
      → r.error ≡ o
      → Held live r
      → Settled live (rest live)
      → Settled live (next_try w o r rest)
  unfolding next_try
  next_try-Settled none live r rest e (inl h) again = inl h
  next_try-Settled none live r rest e (inr h) again = absurd (h.0 e)
  next_try-Settled (some err) live r rest e (inl h) again = absurd (some-ne-none err (sym e ∙ h.0))
  next_try-Settled (some err) live r rest e (inr h) again = elim (Bool-cases (is_enoent err)) [
    | inl t ↦ rw (t, next_try, h.1) again
    | inr f ↦ rw (f, next_try) (inr (some-ne-none err, h.1))
  ]

  pub search-Settled :
      (locs : List ℕ) (chk : Bool) (live : ℕ) → Settled live (search w locs chk live)
  unfolding search
  search-Settled [] chk live = inr (some-ne-none Super.enoent, refl)
  search-Settled (loc ∷ rest) chk live =
      next_try-Settled (readsuper w loc false chk live).error live (readsuper w loc false chk live)
        (search w rest chk) refl (readsuper-Held loc false chk live) (search-Settled rest chk live)

  -- The loop leaves the count as it was, also when a read fails.
  abbrev Kept : ℕ → Load → Type 0
  Kept live stuck = Unit
  Kept live (loaded space room l) = l ≡ live
  Kept live (Load.failed e l) = l ≡ live

  on_data-Kept :
      (reply : Reply (List ℕ)) (size : ℕ) (space : List ℕ) (room live : ℕ)
      (rest : List ℕ → ℕ → ℕ → Load)
      → ((s : List ℕ) (n : ℕ) → Kept live (rest s n live))
      → Kept live (on_data reply size space room live rest)
  unfolding on_data
  on_data-Kept (got buf) size space room live rest h =
      let e : live + 1 - 1 ≡ live = omega arith in
      if_lem (Kept live) (ltb room size) _ _ tt (rw e (h (space ++ take size buf) (room - size)))
  on_data-Kept (Reply.failed e true) size space room live rest h = omega arith
  on_data-Kept (Reply.failed e false) size space room live rest h = refl

  load-Kept :
      (fs : Super.Fs) (blks fuel i : ℕ) (space : List ℕ) (room live : ℕ)
      → Kept live (load w fs blks fuel i space room live)
  unfolding load
  load-Kept fs blks zero i space room live = tt
  load-Kept fs blks (suc fuel) i space room live = elim (Bool-cases (ltb i blks)) [
    | inl t ↦
        rw (t, load)
          (on_data-Kept _ (chunk_size w fs blks i) space room live
            (load w fs blks fuel (i + fs.frag))
            (λ s n. load-Kept fs blks fuel (i + fs.frag) s n live))
    | inr f ↦ rw (f, load) refl
  ]

  -- The same of a call, if it returns.
  abbrev Ends : ℕ → Option Result → Type 0
  Ends live o = (r : Result) → o ≡ some r → Balanced live r

  ends : (live : ℕ) (r : Result) → Balanced live r → Ends live (some r)
  ends live r h r' e = subst (Balanced live) (some-injective _ _ e) h

  never : (live : ℕ) → Ends live none
  never live r e = absurd (some-ne-none_result r (sym e))

  summarise-Ends :
      (fs : Super.Fs) (live : ℕ) (l : Load) → Kept (live + 1 + 2) l → Ends live (summarise w fs l)
  unfolding summarise
  summarise-Ends fs live stuck k = never live
  summarise-Ends fs live (Load.failed err l) k =
      ends live _ (inr (some-ne-none err, omega arith, refl))
  summarise-Ends fs live (loaded space room l) k =
      if_lem (Ends live) (ltb room (tables_size w fs)) _ _ (never live)
        (ends live _ (inl (refl, omega arith)))

  fill-Ends : (fs : Super.Fs) (live : ℕ) → Ends live (fill w fs (live + 1))
  unfolding fill
  fill-Ends fs live =
      let back1 : live + 1 - 1 ≡ live = omega arith in
      let back2 : live + 1 + 1 - 1 - 1 ≡ live = omega arith in
      if_lem (Ends live) (fs.fsize == 0) _ _ (never live) (
        if_lem (Ends live) (not w.malloc_si) _ _
          (ends live _ (inr (some-ne-none Super.enospc, back1, refl)))
          (if_lem (Ends live) (not w.malloc_space) _ _
            (ends live _ (inr (some-ne-none Super.enospc, back2, refl)))
            (summarise-Ends fs live _ (load-Kept fs _ _ 0 [] _ (live + 1 + 2)))))

  with_super-Ends :
      (fs : Super.Fs) (p : Pointer) (live l : ℕ)
      → p ≡ to fs
      → l ≡ live + 1
      → Ends live (with_super w p l)
  unfolding with_super
  with_super-Ends fs p live l e h = rw (e, h, with_super) (fill-Ends fs live)

  after_read-Ends :
      (o : Option Super.Errno) (live : ℕ) (r : Result)
      → r.error ≡ o
      → Settled live r
      → Ends live (after_read w o r)
  unfolding after_read
  after_read-Ends none live r e (inl (h, fs, p, l)) = with_super-Ends fs r.fs live r.live p l
  after_read-Ends none live r e (inr h) = absurd (h.0 e)
  after_read-Ends (some err) live r e (inl h) = absurd (some-ne-none err (sym e ∙ h.0))
  after_read-Ends (some err) live r e (inr h) = ends live _ (inr (some-ne-none err, h.1, refl))

  alternate-Ends :
      (o : Option Super.Errno) (live : ℕ) (r : Result)
      → r.error ≡ o
      → Held live r
      → Ends live (alternate w o r)
  unfolding alternate
  alternate-Ends none live r e (inl (h, fs, p, l)) = with_super-Ends fs r.fs live r.live p l
  alternate-Ends none live r e (inr h) = absurd (h.0 e)
  alternate-Ends (some err) live r e (inl h) = absurd (some-ne-none err (sym e ∙ h.0))
  alternate-Ends (some err) live r e (inr h) = ends live _ (inr (some-ne-none err, h.1, refl))

  pub sbget-Balanced :
      (altsblock : ℤ) (live : ℕ) (r : Result) → sbget w altsblock live ≡ some r → Balanced live r
  unfolding sbget
  sbget-Balanced (pos loc) live =
      alternate-Ends (readsuper w loc true false live).error live (readsuper w loc true false live)
        refl (readsuper-Held loc true false live)
  sbget-Balanced (negsuc n) live =
      after_read-Ends _ live (search w sblock_try (if n == 1 then false else true) live) refl
        (search-Settled sblock_try (if n == 1 then false else true) live)
