-- ===== src/Dirhash/Words/Adjust.antt =====
-- The loop and the writes of `ufsdirhash_adjfree` of ufsX/ufs/ufs/ufs_dirhash.c on the index.
use ufson_mac_os.Base.{
  ℕ, ◌+◌, ◌-◌, ◌≤◌, ◌<◌, true, false, Option, none, some, List, ◌≡◌, ◌≢◌, refl, arith, inl, inr,
  sym, subst, ◌∙◌, ap,
}
use ufson_mac_os.Base.{◌==◌, if◌then◌else◌, Bool-cases, get_or, get_or-set, length, length-set, set}
use ufson_mac_os.Libufs.Cgroup.Search.{Finds, pass}
use ufson_mac_os.Dirhash.{
  nfstats, blkfree_idx, first_of, next_block, move_first, is_block, is_after,
}
use ufson_mac_os.Dirhash.Words.Indexed.{
  in_class, Finds_cong, next_block-Finds, leave, join, join_later, still_none,
}

-- `ufsdirhash_adjfree` on the tables: block `block` goes from class `a` to class `b`.
module _ (blkfree blkfree' : List ℕ) (n block a b : ℕ) (firstfree : List (Option ℕ))
    (low : block < n) (other : a ≢ b) (was : blkfree_idx (get_or blkfree block 0) ≡ a)
    (is : blkfree_idx (get_or blkfree' block 0) ≡ b)
    (same : (j : ℕ) → j ≢ block → get_or blkfree' j 0 ≡ get_or blkfree j 0)
    (fits : length firstfree ≡ nfstats + 1) (low_a : a ≤ nfstats) (low_b : b ≤ nfstats)
    (first : (i : ℕ) → i ≤ nfstats → Finds (in_class blkfree i) n (first_of firstfree i)) where
  elsewhere : (i j : ℕ) → j ≢ block → in_class blkfree i j ≡ in_class blkfree' i j
  elsewhere i j ne = ap (λ w. blkfree_idx w == i) (sym (same j ne))

  -- The first table: the class that the block leaves.
  abbrev left : List (Option ℕ)
  left =
      if is_block block (first_of firstfree a)
      then set firstfree a (next_block (n - (block + 1)) blkfree' a (block + 1))
      else firstfree

  left-length : length left ≡ nfstats + 1
  left-length = elim (Bool-cases (is_block block (first_of firstfree a))) [
    | inl t ↦ rw t (length-set firstfree a _ ∙ fits)
    | inr f ↦ rw f fits
  ]

  left_other : (i : ℕ) → i ≢ a → first_of left i ≡ first_of firstfree i
  left_other i ne = elim (Bool-cases (is_block block (first_of firstfree a))) [
    | inl t ↦ rw t (
        ground (
          arith,
          get_or-set firstfree a i (next_block (n - (block + 1)) blkfree' a (block + 1)) none,
        ))
    | inr f ↦ rw f refl
  ]

  gone : in_class blkfree' a block ≡ false
  gone = ground arith

  left_own : Finds (in_class blkfree' a) n (first_of left a)
  left_own = elim (Bool-cases (is_block block (first_of firstfree a))) [
    | inr f ↦ rw f (
        leave (in_class blkfree a) (in_class blkfree' a) n block low (elsewhere a) _ gone f
          (first a low_a))
    | inl t ↦ rw t (
        rw (own_set) (
          next_block-Finds blkfree' a n (n - (block + 1)) (block + 1) (omega arith)
            (none_before t)))
  ]
    where
      own_set :
          first_of (set firstfree a (next_block (n - (block + 1)) blkfree' a (block + 1))) a
          ≡ next_block (n - (block + 1)) blkfree' a (block + 1)
      own_set = ground (
        arith,
        get_or-set firstfree a a (next_block (n - (block + 1)) blkfree' a (block + 1)) none,
      )

      head_lem : (r : Option ℕ) → is_block block r ≡ true → r ≡ some block
      head_lem none t = cc
      head_lem (some c) t = let e : c ≡ block = ground arith in ap some e

      none_before :
          is_block block (first_of firstfree a) ≡ true
          → (j : ℕ) → j < block + 1
          → in_class blkfree' a j ≡ false
      none_before t =
          let f : Finds (in_class blkfree a) n (some block) =
            subst (Finds (in_class blkfree a) n) (head_lem _ t) (first a low_a) in
          pass (in_class blkfree' a) block
            (still_none (in_class blkfree a) (in_class blkfree' a) n block low (elsewhere a) block
              f.before (inr gone))
            gone

  left_rest : (i : ℕ) → i ≤ nfstats → i ≢ b → Finds (in_class blkfree' i) n (first_of left i)
  left_rest i low_i ne = elim (Bool-cases (i == a)) [
    | inl y ↦
        let at : i ≡ a = ground arith in
        subst (λ x. Finds (in_class blkfree' x) n (first_of left x)) (sym at) left_own
    | inr f ↦
        let off : i ≢ a = ground arith in
        subst (Finds (in_class blkfree' i) n) (sym (left_other i off)) (
          Finds_cong (in_class blkfree i) (in_class blkfree' i) n (first_of firstfree i)
            (λ j lt. whole i off ne j) (first i low_i))
  ]
    where
      whole : (i : ℕ) → i ≢ a → i ≢ b → (j : ℕ) → in_class blkfree i j ≡ in_class blkfree' i j
      whole i off ne j = elim (Bool-cases (j == block)) [
        | inr f ↦ elsewhere i j (ground arith)
        | inl y ↦
            let at : j ≡ block = ground arith in
            subst (λ x. in_class blkfree i x ≡ in_class blkfree' i x) (sym at)
              (ground (arith, was, is))
      ]

  joined : in_class blkfree' b block ≡ true
  joined = ground (arith, is)

  apart : in_class blkfree b block ≡ false
  apart = ground (arith, was)

  pub move_first-Finds :
      (i : ℕ)
      → i ≤ nfstats
      → Finds (in_class blkfree' i) n (first_of (move_first n blkfree' block a b firstfree) i)
  unfolding move_first
  move_first-Finds i low_i = elim (Bool-cases (is_after block (first_of left b))) [
    | inl t ↦ rw t (elim (Bool-cases (i == b)) [
      | inl y ↦
          let at : i ≡ b = ground arith in
          subst (λ x. Finds (in_class blkfree' x) n (first_of (set left b (some block)) x)) (sym at)
            (subst (Finds (in_class blkfree' b) n) (sym set_here) (
              join (in_class blkfree b) (in_class blkfree' b) n block low (elsewhere b)
                (first_of firstfree b) joined (subst (λ r. is_after block r ≡ true) left_b t)
                (first b low_b)))
      | inr f ↦
          let off : i ≢ b = ground arith in
          subst (Finds (in_class blkfree' i) n) (sym (set_off i off)) (left_rest i low_i off)
    ])
    | inr f ↦ rw f (elim (Bool-cases (i == b)) [
      | inl y ↦
          let at : i ≡ b = ground arith in
          subst (λ x. Finds (in_class blkfree' x) n (first_of left x)) (sym at)
            (subst (Finds (in_class blkfree' b) n) (sym left_b) (
              join_later (in_class blkfree b) (in_class blkfree' b) n block low (elsewhere b)
                (first_of firstfree b) apart (subst (λ r. is_after block r ≡ false) left_b f)
                (first b low_b)))
      | inr g ↦ left_rest i low_i (ground arith)
    ])
  ]
    where
      left_b : first_of left b ≡ first_of firstfree b
      left_b = left_other b (λ e. other (sym e))

      set_here : first_of (set left b (some block)) b ≡ some block
      set_here = ground (arith, get_or-set left b b (some block) none, left-length)

      set_off : (i : ℕ) → i ≢ b → first_of (set left b (some block)) i ≡ first_of left i
      set_off i off = ground (arith, get_or-set left b i (some block) none, left-length)

  pub move_first-length : length (move_first n blkfree' block a b firstfree) ≡ nfstats + 1
  unfolding move_first
  move_first-length = elim (Bool-cases (is_after block (first_of left b))) [
    | inl t ↦ rw t (length-set left b (some block) ∙ left-length)
    | inr f ↦ rw f left-length
  ]
