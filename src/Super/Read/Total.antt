-- ===== src/Super/Read/Total.antt =====
-- How the calls of `ffs_sbget` of ufsX/ufs/ffs/ffs_subr.c end.
use ufson_mac_os.Base.{
  ℕ, zero, suc, ◌+◌, ◌-◌, ◌*◌, ◌/◌, ◌%◌, ◌<◌, ◌≤◌, Bool, true, false, none, some, Option, List, [],
  ◌∷◌,
}
use ufson_mac_os.Base.{
  ◌≡◌, refl, ap, ◌∙◌, arith, if◌then◌else◌, inl, inr, ltb, Bool-cases, ◌==◌, not,
}
use ufson_mac_os.Base.Int.{ℤ, pos, negsuc}
use native.Mathlib.Nat.{div-add-mod', add-mul-mod_self_right, mod-eq_of_lt, add-mul}
use ufson_mac_os.Super
use ufson_mac_os.Super.Read.{
  World, Reply, got, Result, Pointer, null, unread, to, release, is_enoent,
}
use ufson_mac_os.Super.Read.{
  check_hash, clear_flags, is_usable, judge, on_reply, readsuper, next_try, search, sblock_try,
}
use ufson_mac_os.Super.Read.{
  Load, loaded, stuck, chunk_size, on_data, load, tables_size, space_size, summarise, fill,
  with_super, alternate, after_read, sbget,
}
use ufson_mac_os.Super.Read.Memory.{
  if_lem, Held, Settled, Balanced, readsuper-Held, search-Settled, sbget-Balanced,
}

-- The sizes of a superblock fit each other: a block is `fs_frag` fragments, the summary is whole
-- fragments, and the sizes of the summary and of the tables after it are an `int` together.
abbrev pub IsSized : Super.Fs → Type 0
IsSized fs =
    (0 < fs.frag)
    × (0 < fs.fsize)
    × (fs.bsize ≡ fs.frag * fs.fsize)
    × (fs.cssize % fs.fsize ≡ 0)
    × (fs.cssize + fs.ncg * 4 + fs.ncg < 0x80000000)

-- The same of what a pointer leads to.
abbrev Sized : Pointer → Type 0
Sized null = Unit
Sized unread = Unit
Sized (to fs) = IsSized fs

-- The summary is as long as its fragments.
blocks_lem : (n size : ℕ) → 0 < size → n % size ≡ 0 → Super.howmany n size * size ≡ n
blocks_lem n size some_ even =
    let whole = div-add-mod' n size in
    let top = div-add-mod' (n + (size - 1)) size in
    let shape : n + (size - 1) ≡ size - 1 + n / size * size = omega arith in
    let rest : (n + (size - 1)) % size ≡ size - 1 =
      ap (λ x. x % size) shape
      ∙ add-mul-mod_self_right (size - 1) (n / size) size
      ∙ mod-eq_of_lt (omega arith) in
    omega arith

split_mul : (a b size : ℕ) → b ≤ a → a * size ≡ b * size + (a - b) * size
split_mul a b size le =
    let e : a ≡ b + (a - b) = omega arith in ap (λ x. x * size) e ∙ add-mul b (a - b) size

module _ (w : World) where
  -- Every superblock on the device has sizes that fit each other.
  abbrev pub HasFrags : Type 0
  HasFrags = (loc : ℕ) (fs : Super.Fs) → w.read_super loc ≡ got fs → IsSized fs

  -- What a `Load` gives when it has not stopped short, with room for the tables.
  abbrev Stops : ℕ → Load → Type 0
  Stops tables stuck = ⊥
  Stops tables (loaded space room l) = tables ≤ room
  Stops tables (Load.failed e l) = Unit

  on_data-Stops :
      (reply : Reply (List ℕ)) (size : ℕ) (space : List ℕ) (room live tables : ℕ)
      (rest : List ℕ → ℕ → ℕ → Load)
      → size ≤ room
      → ((s : List ℕ) (l : ℕ) → Stops tables (rest s (room - size) l))
      → Stops tables (on_data reply size space room live rest)
  unfolding on_data
  on_data-Stops (got buf) size space room live tables rest fits h =
      let enough : ltb room size ≡ false = ground arith in rw enough (h _ _)
  on_data-Stops (Reply.failed e kept) size space room live tables rest fits h = tt

  -- A read takes at most the fragments that are left, and leaves room for the others.
  chunk_lem :
      (fs : Super.Fs) (blks i room tables : ℕ)
      → fs.bsize ≡ fs.frag * fs.fsize
      → i < blks
      → (blks - i) * fs.fsize + tables ≤ room
      → (chunk_size w fs blks i ≤ room)
        × ((blks - (i + fs.frag)) * fs.fsize + tables ≤ room - chunk_size w fs blks i)
  unfolding chunk_size
  chunk_lem fs blks i room tables block lt fits = elim (Bool-cases (ltb blks (i + fs.frag))) [
    | inl e ↦
        let none_ : blks - (i + fs.frag) ≡ 0 = ground arith in
        rw (e, none_) (omega arith, omega arith)
    | inr e ↦
        let le : fs.frag ≤ blks - i = ground arith in
        let parts = split_mul (blks - i) fs.frag fs.fsize le in
        let rest : blks - i - fs.frag ≡ blks - (i + fs.frag) = omega arith in
        let parts = rw rest at parts in rw (e, block) (omega arith, omega arith)
  ]

  load-Stops :
      (fs : Super.Fs) (blks fuel i : ℕ) (space : List ℕ) (room live tables : ℕ)
      → 0 < fs.frag
      → fs.bsize ≡ fs.frag * fs.fsize
      → blks - i < fuel
      → (blks - i) * fs.fsize + tables ≤ room
      → Stops tables (load w fs blks fuel i space room live)
  unfolding load
  load-Stops fs blks zero i space room live tables f block h fits = absurd (omega arith)
  load-Stops fs blks (suc fuel) i space room live tables f block h fits =
      elim (Bool-cases (ltb i blks)) [
        | inl t ↦
            let lt : i < blks = ground arith in
            let (chunk, left) = chunk_lem fs blks i room tables block lt fits in
            rw (t, load)
              (on_data-Stops _ _ space room live tables _ chunk (λ s l.
                load-Stops fs blks fuel (i + fs.frag) s _ l tables f block (omega arith) left))
        | inr e ↦ rw (e, load) (omega arith)
      ]

  Returns : Option Result → Type 0
  Returns o = (r : Result) × (o ≡ some r)

  summarise-Returns :
      (fs : Super.Fs) (l : Load) → Stops (tables_size w fs) l → Returns (summarise w fs l)
  unfolding summarise Returns
  summarise-Returns fs stuck h = absurd h
  summarise-Returns fs (Load.failed e l) h = (_, refl)
  summarise-Returns fs (loaded space room l) h =
      let enough : ltb room (tables_size w fs) ≡ false = ground arith in rw enough (_, refl)

  -- The space that is asked for has room for the summary and the tables.
  space_lem :
      (fs : Super.Fs)
      → IsSized fs
      → (Super.howmany fs.cssize fs.fsize - 0) * fs.fsize + tables_size w fs ≤ space_size w fs
  unfolding tables_size space_size
  space_lem fs (f, some_, block, even, small) =
      let start : Super.howmany fs.cssize fs.fsize - 0 ≡ Super.howmany fs.cssize fs.fsize =
        omega arith in
      let whole = ap (λ n. n * fs.fsize) start ∙ blocks_lem fs.cssize fs.fsize some_ even in
      elim (Bool-cases (ltb 0 fs.contigsumsize)) [
        | inl e ↦ rw e (omega (arith, whole))
        | inr e ↦ rw e (omega (arith, whole))
      ]

  fill-Returns : (fs : Super.Fs) (live : ℕ) → IsSized fs → Returns (fill w fs live)
  unfolding fill Returns
  fill-Returns fs live s =
      let (f, some_, block, even, small) = s in
      let divides : fs.fsize == 0 ≡ false = ground arith in
      rw divides (
        if_lem Returns (not w.malloc_si) _ _ (_, refl)
          (if_lem Returns (not w.malloc_space) _ _ (_, refl)
            (summarise-Returns fs _ (
              load-Stops fs (Super.howmany fs.cssize fs.fsize) _ 0 [] _ (live + 2)
                (tables_size w fs) f block (omega arith) (space_lem fs s)))))

  -- The tests of a superblock leave its sizes alone.
  check_hash-Sized :
      (fs : Super.Fs) (loc : ℕ) (chk : Bool) (live : ℕ)
      → IsSized fs
      → Sized (check_hash w fs loc chk live).fs
  unfolding check_hash
  check_hash-Sized fs loc chk live s = elim (Bool-cases (fs.ckhash == Super.calc_sbhash w.crc fs)) [
    | inl same ↦ rw same s
    | inr other ↦ elim (Bool-cases chk) [ inl c ↦ rw (other, c) s | inr c ↦ rw (other, c) s ]
  ]

  judge-Sized :
      (fs : Super.Fs) (loc : ℕ) (alt chk : Bool) (live : ℕ)
      → IsSized fs
      → Sized (judge w fs loc alt chk live).fs
  unfolding judge clear_flags
  judge-Sized fs loc alt chk live s = elim (Bool-cases (fs.magic == Super.fs_bad_magic)) [
    | inl bad ↦ rw bad s
    | inr good ↦ elim (Bool-cases (is_usable w fs loc alt)) [
      | inr no_ ↦ rw (good, no_) s
      | inl usable ↦ rw (good, usable) (check_hash-Sized (clear_flags w fs) loc chk live s)
    ]
  ]

  on_reply-Sized :
      (reply : Reply Super.Fs) (loc : ℕ) (alt chk : Bool) (live : ℕ)
      → ((fs : Super.Fs) → reply ≡ got fs → IsSized fs)
      → Sized (on_reply w reply loc alt chk live).fs
  unfolding on_reply
  on_reply-Sized (got sb) loc alt chk live h = judge-Sized sb loc alt chk (live + 1) (h sb refl)
  on_reply-Sized (Reply.failed e true) loc alt chk live h = tt
  on_reply-Sized (Reply.failed e false) loc alt chk live h = tt

  module _ (frags : HasFrags) where
    readsuper-Sized :
        (loc : ℕ) (alt chk : Bool) (live : ℕ) → Sized (readsuper w loc alt chk live).fs
    unfolding readsuper
    readsuper-Sized loc alt chk live =
        on_reply-Sized (w.read_super loc) loc alt chk live (frags loc)

    next_try-Sized :
        (o : Option Super.Errno) (r : Result) (rest : ℕ → Result)
        → Sized r.fs
        → ((l : ℕ) → Sized (rest l).fs)
        → Sized (next_try w o r rest).fs
    unfolding next_try
    next_try-Sized none r rest h k = h
    next_try-Sized (some e) r rest h k = elim (Bool-cases (is_enoent e)) [
      | inl t ↦ rw (t, next_try) (k (release r))
      | inr f ↦ rw (f, next_try) tt
    ]

    search-Sized : (locs : List ℕ) (chk : Bool) (live : ℕ) → Sized (search w locs chk live).fs
    unfolding search
    search-Sized [] chk live = tt
    search-Sized (loc ∷ rest) chk live =
        next_try-Sized (readsuper w loc false chk live).error (readsuper w loc false chk live)
          (search w rest chk) (readsuper-Sized loc false chk live) (search-Sized rest chk)

    with_super-Returns :
        (fs : Super.Fs) (p : Pointer) (l : ℕ) → p ≡ to fs → Sized p → Returns (with_super w p l)
    unfolding with_super
    with_super-Returns fs p l e h = rw (e, with_super) (fill-Returns fs l (rw e at h))

    after_read-Returns :
        (o : Option Super.Errno) (live : ℕ) (r : Result)
        → r.error ≡ o
        → Settled live r
        → Sized r.fs
        → Returns (after_read w o r)
    unfolding after_read
    after_read-Returns none live r e (inl (h, fs, p, l)) f = with_super-Returns fs r.fs r.live p f
    after_read-Returns none live r e (inr h) f = absurd (h.0 e)
    after_read-Returns (some err) live r e h f = unfold Returns in (_, refl)

    alternate-Returns :
        (o : Option Super.Errno) (live : ℕ) (r : Result)
        → r.error ≡ o
        → Held live r
        → Sized r.fs
        → Returns (alternate w o r)
    unfolding alternate
    alternate-Returns none live r e (inl (h, fs, p, l)) f = with_super-Returns fs r.fs r.live p f
    alternate-Returns none live r e (inr h) f = absurd (h.0 e)
    alternate-Returns (some err) live r e h f = unfold Returns in (_, refl)

    sbget-Returns : (altsblock : ℤ) (live : ℕ) → Returns (sbget w altsblock live)
    unfolding sbget
    sbget-Returns (pos loc) live =
        alternate-Returns (readsuper w loc true false live).error live
          (readsuper w loc true false live) refl (readsuper-Held w loc true false live)
          (readsuper-Sized loc true false live)
    sbget-Returns (negsuc n) live =
        let chk : Bool = if n == 1 then false else true in
        after_read-Returns (search w sblock_try chk live).error live (search w sblock_try chk live)
          refl (search-Settled w sblock_try chk live) (search-Sized sblock_try chk live)

    -- If in every superblock on the device fs_frag and fs_fsize are not 0, a block is fs_frag
    -- fragments, the summary is whole fragments, and the sizes of the summary and of the tables
    -- after it fit an int together, then ffs_sbget returns for every location asked for, and
    -- writes nothing past the space that it allocates; on success three more blocks of memory are
    -- in use than before, on an error just as many, and *fsp is null.
    pub sbget_total :
        (altsblock : ℤ) (live : ℕ)
        → (r : Result) × (sbget w altsblock live ≡ some r) × Balanced live r
    unfolding Returns
    sbget_total altsblock live =
        let (r, e) = sbget-Returns altsblock live in (r, e, sbget-Balanced w altsblock live r e)
