-- ===== src/Dirhash/Words/Roomy.antt =====
-- The first loop of `ufsdirhash_findfree` of ufsX/ufs/ufs/ufs_dirhash.c: a block with room.
use ufson_mac_os.Base.{
  ℕ, zero, suc, ◌+◌, ◌-◌, ◌≤◌, ◌<◌, true, Option, none, some, List, ◌≡◌, refl, arith, inl, inr, sym,
  subst,
}
use ufson_mac_os.Base.{==_iff, ◌==◌, Bool-cases, get_or}
use native.Mathlib.Decide.{dec_lt}
use ufson_mac_os.Libufs.Cgroup.Search.{Finds}
use ufson_mac_os.Dirhash.{Dirhash, nfstats, blkfree_idx, first_of, diralign}
use ufson_mac_os.Dirhash.Words.{roomy_block, or_else, find_block, howmany}
use ufson_mac_os.Dirhash.Words.Indexed.{in_class, IsIndexed}

-- The block is the first of a class from `i` on, or these classes have no block.
Picks : List (Option ℕ) → ℕ → ℕ → Option ℕ → Type 0
Picks firstfree i n none = (k : ℕ) → i ≤ k → k < n → first_of firstfree k ≡ none
Picks firstfree i n (some b) = (k : ℕ) × (i ≤ k) × (k < n) × (first_of firstfree k ≡ some b)

roomy_block-Picks :
    (left i n : ℕ) (firstfree : List (Option ℕ))
    → i + left ≡ n
    → Picks firstfree i n (roomy_block left firstfree i)
unfolding roomy_block Picks
roomy_block-Picks zero i n firstfree e = λ k low short. absurd (omega arith)
roomy_block-Picks (suc left) i n firstfree e =
    by_class (first_of firstfree i) refl _
      (roomy_block-Picks left (i + 1) n firstfree (omega arith))
  where
    later :
        (r : Option ℕ)
        → first_of firstfree i ≡ none
        → Picks firstfree (i + 1) n r
        → Picks firstfree i n r
    later none bare p = λ k low short. elim (Bool-cases (k == i)) [
      | inl y ↦
          let at : k ≡ i = ground arith in subst (λ x. first_of firstfree x ≡ none) (sym at) bare
      | inr f ↦ p k (ground arith) short
    ]
    later (some b) bare p = (p.0, omega (arith, p.1), p.2, p.3)

    by_class :
        (here : Option ℕ)
        → first_of firstfree i ≡ here
        → (rest : Option ℕ) → Picks firstfree (i + 1) n rest
        → Picks firstfree i n (or_else here rest)
    by_class none bare rest p = later rest bare p
    by_class (some b) found rest p = (i, omega arith, omega arith, found)

-- What `find_block` gives for `words` words.
abbrev pub Fits : Dirhash → ℕ → Option ℕ → Type 0
Fits dh words none = words ≤ nfstats → (b : ℕ) → b < dh.dirblks → get_or dh.blkfree b 0 < words
Fits dh words (some b) = (b < dh.dirblks) × (words ≤ get_or dh.blkfree b 0)

-- A block of the class of a table entry has as many words.
class_words : (dh : Dirhash) (k b : ℕ) → in_class dh.blkfree k b ≡ true → k ≤ get_or dh.blkfree b 0
class_words dh k b c = ground arith

-- A block with `words` words would stand in a class from `words` on.
own_class :
    (dh : Dirhash) (words b : ℕ)
    → words ≤ nfstats
    → words ≤ get_or dh.blkfree b 0
    → (words ≤ blkfree_idx (get_or dh.blkfree b 0))
      × (blkfree_idx (get_or dh.blkfree b 0) ≤ nfstats)
own_class dh words b small le = ground arith

Fits-Picks :
    (dh : Dirhash) (words : ℕ) (r : Option ℕ)
    → IsIndexed dh
    → Picks dh.firstfree words (nfstats + 1) r
    → Fits dh words r
unfolding Picks
Fits-Picks dh words none x p = λ small b low. elim (dec_lt (get_or dh.blkfree b 0) words) [
  | yes lt ↦ lt
  | no ge ↦
      let own = own_class dh words b small (omega arith) in
      let k : ℕ = blkfree_idx (get_or dh.blkfree b 0) in
      let bare = p k own.0 (omega (arith, own.1)) in
      let f : Finds (in_class dh.blkfree k) dh.dirblks none =
        subst (Finds (in_class dh.blkfree k) dh.dirblks) bare (x.first k own.1) in
      absurd (let e = f b low in let t = (==_iff k k).1 refl in cc)
]
Fits-Picks dh words (some b) x (k, low, short, e) =
    let f : Finds (in_class dh.blkfree k) dh.dirblks (some b) =
      subst (Finds (in_class dh.blkfree k) dh.dirblks) e (x.first k (omega arith)) in
    (f.below, omega (arith, class_words dh k b f.holds))

-- If dh_firstfree has the first block of each class, then the first loop of ufsdirhash_findfree
-- picks a block of the directory with as many free words as are needed; if it picks none and no
-- more words are needed than an entry can have, no block has as many.
pub find_block-Fits :
    (dh : Dirhash) (slotneeded : ℕ)
    → IsIndexed dh
    → Fits dh (howmany slotneeded diralign) (find_block dh slotneeded)
unfolding find_block roomy_block
find_block-Fits dh slotneeded x = elim (dec_lt (nfstats + 1) (howmany slotneeded diralign)) [
  | no le ↦
      Fits-Picks dh (howmany slotneeded diralign) _ x
        (roomy_block-Picks _ (howmany slotneeded diralign) (nfstats + 1) dh.firstfree (omega arith))
  | yes over ↦
      let e : nfstats + 1 - howmany slotneeded diralign ≡ 0 = omega arith in
      rw (e, roomy_block) (λ small b low. absurd (omega arith))
]
