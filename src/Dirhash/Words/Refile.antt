-- ===== src/Dirhash/Words/Refile.antt =====
-- `ufsdirhash_adjfree` of ufsX/ufs/ufs/ufs_dirhash.c and the index of first blocks.
use ufson_mac_os.Base.{
  ℕ, ◌+◌, ◌/◌, ◌≤◌, ◌<◌, false, Option, List, ◌≡◌, ◌≢◌, refl, arith, inl, inr, sym, subst, ◌∙◌, ap,
}
use ufson_mac_os.Base.{
  ==_iff, ◌==◌, if◌then◌else◌, Bool-cases, get_or, get_or-set, length, length-set, set,
}
use ufson_mac_os.Base.Int.{ℤ}
use ufson_mac_os.Libufs.Cgroup.Search.{Finds}
use ufson_mac_os.Dirhash.{
  Dirhash, nfstats, blkfree_idx, first_of, adjfree, refile, dirblksiz, shift_words,
}
use ufson_mac_os.Dirhash.Words.Indexed.{in_class, IsIndexed, Finds_cong}
use ufson_mac_os.Dirhash.Words.Adjust.{move_first-Finds, move_first-length}

idx-le : (w : ℕ) → blkfree_idx w ≤ nfstats
idx-le w = ground arith

ne_of : {m n : ℕ} → (m == n) ≡ false → m ≢ n
ne_of {m} {n} f e = absurd (let t = (==_iff m n).1 e in cc)

module _ (dh : Dirhash) (x : IsIndexed dh) (block new : ℕ) (low : block < dh.dirblks) where
  abbrev written : List ℕ
  written = set dh.blkfree block new

  abbrev old : ℕ
  old = get_or dh.blkfree block 0

  abbrev refiled : List (Option ℕ)
  refiled = refile dh.dirblks written block old new dh.firstfree

  written_words : (j : ℕ) → get_or written j 0 ≡ (if j == block then new else get_or dh.blkfree j 0)
  written_words j = get_or-set dh.blkfree block j new 0 (omega (arith, x.blocks, x.within))

  written_here : get_or written block 0 ≡ new
  written_here = ground (arith, written_words block)

  written_off : (j : ℕ) → j ≢ block → get_or written j 0 ≡ get_or dh.blkfree j 0
  written_off j ne = ground (arith, written_words j)

  same_class :
      (i j : ℕ) → blkfree_idx old ≡ blkfree_idx new → in_class dh.blkfree i j ≡ in_class written i j
  same_class i j e = elim (Bool-cases (j == block)) [
    | inr f ↦ ap (λ w. blkfree_idx w == i) (sym (written_off j (ground arith)))
    | inl y ↦
        let at : j ≡ block = ground arith in
        subst (λ k. in_class dh.blkfree i k ≡ in_class written i k) (sym at)
          (ap (λ w. w == i) (e ∙ ap blkfree_idx (sym written_here)))
  ]

  pub refile-Finds :
      (i : ℕ) → i ≤ nfstats → Finds (in_class written i) dh.dirblks (first_of refiled i)
  unfolding refile
  refile-Finds i le = elim (Bool-cases (blkfree_idx old == blkfree_idx new)) [
    | inl t ↦
        rw t
          (Finds_cong _ _ dh.dirblks _ (λ j lt. same_class i j ((==_iff _ _).0 t)) (x.first i le))
    | inr f ↦ rw f (
        move_first-Finds dh.blkfree written dh.dirblks block (blkfree_idx old) (blkfree_idx new)
          dh.firstfree low (ne_of f) refl (ap blkfree_idx written_here) written_off x.classes
          (idx-le old) (idx-le new) x.first i le)
  ]

  pub refile-length : length refiled ≡ nfstats + 1
  unfolding refile
  refile-length = elim (Bool-cases (blkfree_idx old == blkfree_idx new)) [
    | inl t ↦ rw t x.classes
    | inr f ↦ rw f (
        move_first-length dh.blkfree written dh.dirblks block (blkfree_idx old) (blkfree_idx new)
          dh.firstfree low (ne_of f) refl (ap blkfree_idx written_here) written_off x.classes
          (idx-le old) (idx-le new) x.first)
  ]

-- ufsdirhash_adjfree for a block of the directory adds the words to the count of that block only,
-- modulo 256, and keeps each entry of dh_firstfree the first block of its class, or -1 if there is
-- none.
pub adjfree-IsIndexed :
    (dh : Dirhash) (offset : ℕ) (diff : ℤ)
    → IsIndexed dh
    → offset / dirblksiz < dh.dirblks
    → IsIndexed (adjfree dh offset diff)
      × ((j : ℕ)
          → get_or (adjfree dh offset diff).blkfree j 0 ≡ (
              if j == offset / dirblksiz
              then shift_words (get_or dh.blkfree (offset / dirblksiz) 0) diff
              else get_or dh.blkfree j 0))
unfolding adjfree
adjfree-IsIndexed dh offset diff x low = (
  record {
    classes =
        refile-length dh x (offset / dirblksiz)
          (shift_words (get_or dh.blkfree (offset / dirblksiz) 0) diff) low;
    blocks = length-set dh.blkfree (offset / dirblksiz) _ ∙ x.blocks;
    within = x.within;
    first =
        refile-Finds dh x (offset / dirblksiz)
          (shift_words (get_or dh.blkfree (offset / dirblksiz) 0) diff) low;
  },
  written_words dh x (offset / dirblksiz) _ low,
)
