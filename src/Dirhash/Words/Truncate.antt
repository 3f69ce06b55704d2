-- ===== src/Dirhash/Words/Truncate.antt =====
-- `ufsdirhash_enduseful` and `ufsdirhash_dirtrunc` of ufsX/ufs/ufs/ufs_dirhash.c.
use ufson_mac_os.Base.{
  ℕ, zero, suc, ◌+◌, ◌-◌, ◌*◌, ◌/◌, ◌≤◌, ◌<◌, true, false, ◌&&◌, Option, none, some, List, ◌≡◌,
  refl, arith, inl, inr, sym, subst, ◌∙◌, ap,
}
use ufson_mac_os.Base.{
  ltb, leb, ◌==◌, if◌then◌else◌, Bool-cases, get_or-set, length, length-set, set,
}
use ufson_mac_os.Libufs.Cgroup.Search.{Finds}
use ufson_mac_os.Dirhash.{Dirhash, After, kept, freed, lost, nfstats, first_of, dirblksiz}
use ufson_mac_os.Dirhash.Words.{
  is_unused, useful_blocks, enduseful, is_from, in_use_from, first_before, dirtrunc, howmany,
}
use ufson_mac_os.Dirhash.Words.Indexed.{in_class, IsIndexed}

useful_blocks_lem :
    (blkfree : List ℕ) (n : ℕ)
    → (useful_blocks blkfree n ≤ n)
      × ((j : ℕ) → useful_blocks blkfree n ≤ j → j < n → is_unused blkfree j ≡ true)
unfolding useful_blocks
useful_blocks_lem blkfree zero = (omega arith, λ j low short. absurd (omega arith))
useful_blocks_lem blkfree (suc n) = elim (Bool-cases (is_unused blkfree n)) [
  | inr f ↦ rw f (omega arith, λ j low short. absurd (omega arith))
  | inl t ↦
      let rest = useful_blocks_lem blkfree n in
      rw t (
        omega (arith, rest.0),
        λ j low short. elim (Bool-cases (j == n)) [
          | inl y ↦
              let at : j ≡ n = ground arith in subst (λ k. is_unused blkfree k ≡ true) (sym at) t
          | inr g ↦ rest.1 j low (ground arith)
        ],
      )
]

in_use_from_lem :
    (left block : ℕ) (blkfree : List ℕ)
    → ((j : ℕ) → block ≤ j → j < block + left → is_unused blkfree j ≡ true)
    → in_use_from left blkfree block ≡ true
unfolding in_use_from
in_use_from_lem zero block blkfree all = refl
in_use_from_lem (suc left) block blkfree all =
    rw
      (
        all block (omega arith) (omega arith),
        in_use_from_lem left (block + 1) blkfree (λ j low short. all j (omega arith) (omega arith)),
      )
      refl

first_before_lem :
    (n block : ℕ) (firstfree : List (Option ℕ))
    → ((i : ℕ) → i < n → is_from block (first_of firstfree i) ≡ false)
    → first_before n firstfree block ≡ true
unfolding first_before
first_before_lem zero block firstfree all = refl
first_before_lem (suc n) block firstfree all =
    rw (all n (omega arith), first_before_lem n block firstfree (λ i lt. all i (omega arith))) refl

-- What `dirtrunc` to `block` blocks leaves.
abbrev pub Truncates : Dirhash → ℕ → After → Type 0
Truncates dh block lost = ⊥
Truncates dh block freed = (block < dh.nblk / 8) × (1 < dh.narrays)
Truncates dh block (kept new) = IsIndexed new × (new.dirblks ≡ block) × (new.blkfree ≡ dh.blkfree)

-- A directory whose blocks from `block` on hold no entry loses these blocks.
module _ (dh : Dirhash) (x : IsIndexed dh) (block : ℕ) (low : block ≤ dh.dirblks)
    (unused : (j : ℕ) → block ≤ j → j < dh.dirblks → is_unused dh.blkfree j ≡ true) where
  abbrev firstfree' : List (Option ℕ)
  firstfree' =
      if is_from block (first_of dh.firstfree nfstats)
      then set dh.firstfree nfstats none
      else dh.firstfree

  -- An unused block is of the last class.
  last_class :
      (i j : ℕ) → i < nfstats → block ≤ j → j < dh.dirblks → in_class dh.blkfree i j ≡ false
  last_class i j lt le short = ground (arith, unused j le short)

  shorter :
      (i : ℕ) (r : Option ℕ)
      → is_from block r ≡ false
      → Finds (in_class dh.blkfree i) dh.dirblks r
      → Finds (in_class dh.blkfree i) block r
  shorter i none before f = λ j lt. f j (omega arith)
  shorter i (some c) before f = record { below = ground arith; holds = f.holds; before = f.before }

  before_block :
      (i : ℕ) (r : Option ℕ)
      → i < nfstats
      → Finds (in_class dh.blkfree i) dh.dirblks r
      → is_from block r ≡ false
  before_block i none lt f = refl
  before_block i (some c) lt f = elim (Bool-cases (leb block c)) [
    | inr g ↦ g
    | inl t ↦ let no_class = last_class i c lt (ground arith) f.below in let h = f.holds in cc
  ]

  cut :
      (r : Option ℕ)
      → is_from block r ≡ true
      → Finds (in_class dh.blkfree nfstats) dh.dirblks r
      → Finds (in_class dh.blkfree nfstats) block none
  cut none t f = cc
  cut (some c) t f = λ j lt. f.before j (ground arith)

  other : (i : ℕ) → i < nfstats → first_of firstfree' i ≡ first_of dh.firstfree i
  other i lt = elim (Bool-cases (is_from block (first_of dh.firstfree nfstats))) [
    | inr f ↦ rw f refl
    | inl t ↦ rw t (ground (arith, get_or-set dh.firstfree nfstats i none none, x.classes))
  ]

  first' : (i : ℕ) → i ≤ nfstats → Finds (in_class dh.blkfree i) block (first_of firstfree' i)
  first' i le = elim (Bool-cases (i == nfstats)) [
    | inr ne ↦
        let lt : i < nfstats = ground arith in
        subst (Finds (in_class dh.blkfree i) block) (sym (other i lt))
          (shorter i _ (before_block i _ lt (x.first i le)) (x.first i le))
    | inl y ↦
        let at : i ≡ nfstats = ground arith in
        subst (λ k. Finds (in_class dh.blkfree k) block (first_of firstfree' k)) (sym at) last_one
  ]
    where
      last_one : Finds (in_class dh.blkfree nfstats) block (first_of firstfree' nfstats)
      last_one = elim (Bool-cases (is_from block (first_of dh.firstfree nfstats))) [
        | inr f ↦ rw f (shorter nfstats _ f (x.first nfstats (omega arith)))
        | inl t ↦
            let bare : first_of (set dh.firstfree nfstats none) nfstats ≡ none =
              ground (arith, get_or-set dh.firstfree nfstats nfstats none none, x.classes) in
            rw t (
              subst (Finds (in_class dh.blkfree nfstats) block) (sym bare)
                (cut _ t (x.first nfstats (omega arith))))
      ]

  classes' : length firstfree' ≡ nfstats + 1
  classes' = elim (Bool-cases (is_from block (first_of dh.firstfree nfstats))) [
    | inr f ↦ rw f x.classes
    | inl t ↦ rw t (length-set dh.firstfree nfstats none ∙ x.classes)
  ]

  truncated : IsIndexed (record dh { firstfree = firstfree'; dirblks = block })
  truncated = record {
    classes = classes';
    blocks = x.blocks;
    within = omega (arith, x.within);
    first = first';
  }

  -- `ufsdirhash_dirtrunc`
  pub dirtrunc-Truncates :
      (offset : ℕ) → howmany offset dirblksiz ≡ block → Truncates dh block (dirtrunc dh offset)
  unfolding dirtrunc
  dirtrunc-Truncates offset e =
      rw e (elim (Bool-cases (ltb block (dh.nblk / 8) && ltb 1 dh.narrays)) [
        | inl t ↦ rw t (ground arith)
        | inr f ↦ rw (f, all, firsts) (truncated, refl, refl)
      ])
    where
      all : in_use_from (dh.dirblks - block) dh.blkfree block ≡ true
      all =
          in_use_from_lem (dh.dirblks - block) block dh.blkfree
            (λ j le short. unused j le (omega arith))

      firsts : first_before nfstats firstfree' block ≡ true
      firsts =
          first_before_lem nfstats block firstfree' (λ i lt.
            ap (is_from block) (other i lt) ∙ before_block i _ lt (x.first i (omega arith)))

some_inj : (a b : ℕ) → some a ≡ some b → a ≡ b
some_inj a b e = cc

-- If ufsdirhash_enduseful gives an offset, it is the end of a block from which on no block of the
-- directory holds an entry, and ufsdirhash_dirtrunc to it does not panic: it gives a small hash up,
-- or cuts these blocks off and keeps dh_firstfree the first block of each class.
pub dirtrunc-enduseful :
    (dh : Dirhash) (x : IsIndexed dh) (offset : ℕ)
    → enduseful dh ≡ some offset
    → (block : ℕ) × (block ≤ dh.dirblks)
      × (offset ≡ block * dirblksiz)
      × ((j : ℕ) → block ≤ j → j < dh.dirblks → is_unused dh.blkfree j ≡ true)
      × Truncates dh block (dirtrunc dh offset)
unfolding enduseful
dirtrunc-enduseful dh x offset e = elim (Bool-cases (is_unused dh.blkfree (dh.dirblks - 1))) [
  | inr f ↦ let no_offset : none ≡ some offset = (rw f at e) in cc
  | inl t ↦
      let block : ℕ = useful_blocks dh.blkfree dh.dirblks in
      let tail = useful_blocks_lem dh.blkfree dh.dirblks in
      let end : offset ≡ block * dirblksiz = sym (some_inj _ _ (rw t at e)) in
      (
        block,
        tail.0,
        end,
        tail.1,
        dirtrunc-Truncates dh x block tail.0 tail.1 offset (omega (arith, end)),
      )
]
