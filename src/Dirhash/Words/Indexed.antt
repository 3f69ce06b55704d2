-- ===== src/Dirhash/Words/Indexed.antt =====
-- The index of first blocks of ufsX/ufs/ufs/ufs_dirhash.c, and how a block leaves a class and joins
-- another.
use ufson_mac_os.Base.{
  ℕ, zero, suc, ◌+◌, ◌≤◌, ◌<◌, Bool, true, false, Option, none, some, List, ◌≡◌, ◌≢◌, arith, inl,
  inr, sym, subst, ◌∙◌, ◌⊎◌,
}
use ufson_mac_os.Base.{◌==◌, Bool-cases, get_or, length}
use ufson_mac_os.Libufs.Cgroup.Search.{Finds, pass}
use ufson_mac_os.Dirhash.{Dirhash, nfstats, blkfree_idx, first_of, next_block, is_block, is_after}

-- The words of block `j` are counted under `idx`.
abbrev pub in_class : List ℕ → ℕ → ℕ → Bool
in_class blkfree idx j = blkfree_idx (get_or blkfree j 0) == idx

-- Each entry of `dh_firstfree` is the first block with as many words free, or -1 if there is none.
pub record IsIndexed (dh : Dirhash) : Type 0 where
  pub classes : length dh.firstfree ≡ nfstats + 1
  pub blocks : length dh.blkfree ≡ dh.nblk
  pub within : dh.dirblks ≤ dh.nblk
  pub first :
      (i : ℕ) → i ≤ nfstats → Finds (in_class dh.blkfree i) dh.dirblks (first_of dh.firstfree i)

pub Finds_cong :
    (p q : ℕ → Bool) (n : ℕ) (r : Option ℕ)
    → ((j : ℕ) → j < n → p j ≡ q j)
    → Finds p n r
    → Finds q n r
Finds_cong p q n none same f = λ j lt. sym (same j lt) ∙ f j lt
Finds_cong p q n (some i) same f =
    let low = f.below in
    record {
      below = low;
      holds = sym (same i low) ∙ f.holds;
      before = λ j lt. sym (same j (omega arith)) ∙ f.before j lt;
    }

pub next_block-Finds :
    (blkfree : List ℕ) (idx n left i : ℕ)
    → i + left ≡ n
    → ((j : ℕ) → j < i → in_class blkfree idx j ≡ false)
    → Finds (in_class blkfree idx) n (next_block left blkfree idx i)
unfolding next_block
next_block-Finds blkfree idx n zero i e h = λ j lt. h j (omega arith)
next_block-Finds blkfree idx n (suc left) i e h = elim (Bool-cases (in_class blkfree idx i)) [
  | inl t ↦ rw (t, next_block) (record { below = omega arith; holds = t; before = h })
  | inr f ↦
      rw (f, next_block)
        (next_block-Finds blkfree idx n left (i + 1) (omega arith)
          (pass (in_class blkfree idx) i h f))
]

differ : (p : ℕ → Bool) (c d : ℕ) → p c ≡ true → p d ≡ false → c ≢ d
differ p c d t f e = absurd (let g = subst (λ x. p x ≡ true) e t in cc)

-- A block leaves a class, or joins it.
module _ (p q : ℕ → Bool) (n block : ℕ) (low : block < n)
    (same : (j : ℕ) → j ≢ block → p j ≡ q j) where
  pub still_none :
      (bound : ℕ)
      → ((j : ℕ) → j < bound → p j ≡ false)
      → (bound ≤ block) ⊎ (q block ≡ false)
      → (j : ℕ) → j < bound
      → q j ≡ false
  still_none bound f away j lt = elim (Bool-cases (j == block)) [
    | inr ne ↦ sym (same j (ground arith)) ∙ f j lt
    | inl y ↦
        let at : j ≡ block = ground arith in
        elim away [
          | inl short ↦ absurd (omega arith)
          | inr gone ↦ subst (λ x. q x ≡ false) (sym at) gone
        ]
  ]

  pub leave :
      (r : Option ℕ) → q block ≡ false → is_block block r ≡ false → Finds p n r → Finds q n r
  leave none gone other f = still_none n f (inr gone)
  leave (some c) gone other f = record {
    below = f.below;
    holds = sym (same c (ground arith)) ∙ f.holds;
    before = still_none c f.before (inr gone);
  }

  -- Nothing stands before a block that comes before the first.
  early : (r : Option ℕ) → is_after block r ≡ true → Finds p n r → (j : ℕ) → j < block → p j ≡ false
  early none after f j lt = f j (omega arith)
  early (some c) after f j lt = f.before j (ground arith)

  pub join :
      (r : Option ℕ)
      → q block ≡ true
      → is_after block r ≡ true
      → Finds p n r
      → Finds q n (some block)
  join r here after f = record {
    below = low;
    holds = here;
    before = still_none block (early r after f) (inl (omega arith));
  }

  pub join_later :
      (r : Option ℕ) → p block ≡ false → is_after block r ≡ false → Finds p n r → Finds q n r
  join_later none was after f = cc
  join_later (some c) was after f =
      let le : c ≤ block = ground arith in
      let ne : c ≢ block = differ p c block f.holds was in
      record {
        below = f.below;
        holds = sym (same c ne) ∙ f.holds;
        before = still_none c f.before (inl le);
      }
