-- ===== src/Dirhash/Block/Entries.antt =====
-- `ufsdirhash_getprev` of ufsX/ufs/ufs/ufs_dirhash.c against the chain of entries of a block.
use ufson_mac_os.Base.{
  ℕ, zero, suc, ◌+◌, ◌-◌, ◌%◌, ◌≤◌, ◌<◌, true, false, ◌||◌, ◌≡◌, ◌≢◌, refl, arith, inl, inr, sym,
  subst, ◌⊎◌,
}
use ufson_mac_os.Base.{ltb, ◌==◌, Bool-cases}
use ufson_mac_os.Dirhash.{dirblksiz}
use ufson_mac_os.Dirhash.Block.{Directory, Prev, prev, no_prev, endless, prev_loop, getprev}

-- The entries from offset `a` on lead to offset `b`.
pub data Leads (dir : Directory) : ℕ → ℕ → Type 0 where
  here : {a : ℕ} → Leads dir a a
  next :
      {a b : ℕ}
      → 0 < (dir.direct a).reclen
      → Leads dir (a + (dir.direct a).reclen) b
      → Leads dir a b

pub Leads-le : {dir : Directory} {a b : ℕ} → Leads dir a b → a ≤ b
Leads-le here = omega arith
Leads-le (next pos rest) = omega (arith, Leads-le rest)

-- The entry at `p` lies before the one at `offset`, and is reached from `a`.
abbrev pub IsBefore : Directory → ℕ → ℕ → ℕ → Type 0
IsBefore dir a offset p =
    Leads dir a p × (0 < (dir.direct p).reclen) × (p + (dir.direct p).reclen ≡ offset)

module _ (dir : Directory) (blkoff entrypos : ℕ) where
  -- What the loop gives from `i` on: the entry before, if the loop is not at its end.
  abbrev Sound : ℕ → ℕ → Prev → Type 0
  Sound i prevoff endless = ⊥
  Sound i prevoff no_prev =
      (i < entrypos) × ¬ ((p : ℕ) × IsBefore dir (blkoff + i) (blkoff + entrypos) p)
  Sound i prevoff (prev p) =
      ((i ≡ entrypos) × (p ≡ prevoff)) ⊎ IsBefore dir (blkoff + i) (blkoff + entrypos) p

  abbrev len : ℕ → ℕ
  len i = (dir.direct (blkoff + i)).reclen

  shift : (i : ℕ) → blkoff + i + len i ≡ blkoff + (i + len i)
  shift i = omega arith

  -- A length that is 0 or too large leads nowhere.
  stuck :
      (i p : ℕ)
      → i < entrypos
      → (len i == 0 || ltb entrypos (i + len i)) ≡ true
      → ¬ IsBefore dir (blkoff + i) (blkoff + entrypos) p
  stuck i p lt bad (here, pos, last) = ground arith
  stuck i p lt bad (next step rest, pos, last) =
      let le = Leads-le rest in absurd (clash (len i) p step le pos last bad)
    where
      clash :
          (l p : ℕ)
          → 0 < l
          → blkoff + i + l ≤ p
          → 0 < (dir.direct p).reclen
          → p + (dir.direct p).reclen ≡ blkoff + entrypos
          → (l == 0 || ltb entrypos (i + l)) ≡ true
          → ⊥
      clash l p step le pos last bad = ground arith

  one_more :
      (i prevoff : ℕ) (r : Prev)
      → i < entrypos
      → 0 < len i
      → Sound (i + len i) (blkoff + i) r
      → Sound i prevoff r
  one_more i prevoff endless lt pos c = c
  one_more i prevoff no_prev lt pos c = (lt, λ (p, before). c.1 (p, later p before))
    where
      later :
          (p : ℕ)
          → IsBefore dir (blkoff + i) (blkoff + entrypos) p
          → IsBefore dir (blkoff + (i + len i)) (blkoff + entrypos) p
      later p (here, len_pos, last) = absurd (let far = c.0 in omega arith)
      later p (next step rest, len_pos, last) =
          (subst (λ a. Leads dir a p) (shift i) rest, len_pos, last)
  one_more i prevoff (prev p) lt pos (inl (end, same)) = inr (
      subst (λ q. IsBefore dir (blkoff + i) (blkoff + entrypos) q) (sym same)
        (here, pos, omega arith))
  one_more i prevoff (prev p) lt pos (inr (leads, len_pos, last)) =
      inr (next pos (subst (λ a. Leads dir a p) (sym (shift i)) leads), len_pos, last)

  prev_loop-Sound :
      (rounds i prevoff : ℕ)
      → i ≤ entrypos
      → entrypos < i + rounds
      → Sound i prevoff (prev_loop rounds dir blkoff entrypos i prevoff)
  unfolding prev_loop
  prev_loop-Sound zero i prevoff le few = absurd (omega arith)
  prev_loop-Sound (suc rounds) i prevoff le few = elim (Bool-cases (ltb i entrypos)) [
    | inr f ↦ rw f (inl (ground arith, refl))
    | inl t ↦
        let lt : i < entrypos = ground arith in
        rw t (elim (Bool-cases (len i == 0 || ltb entrypos (i + len i))) [
          | inl bad ↦ rw bad (lt, λ (p, before). stuck i p lt bad before)
          | inr good ↦
              let pos = positive (len i) good in
              let inside = no_further (len i) good in
              rw good (
                one_more i prevoff _ lt pos
                  (prev_loop-Sound rounds (i + len i) (blkoff + i) inside (omega arith)))
        ])
  ]
    where
      positive : (l : ℕ) → (l == 0 || ltb entrypos (i + l)) ≡ false → 0 < l
      positive l good = ground arith

      no_further : (l : ℕ) → (l == 0 || ltb entrypos (i + l)) ≡ false → i + l ≤ entrypos
      no_further l good = ground arith

-- What `getprev` of an entry gives, with the chain that starts with the block of the entry.
abbrev pub PrevOf : Directory → ℕ → Prev → Type 0
PrevOf dir offset endless = ⊥
PrevOf dir offset no_prev = ¬ ((p : ℕ) × IsBefore dir (offset - offset % dirblksiz) offset p)
PrevOf dir offset (prev p) = IsBefore dir (offset - offset % dirblksiz) offset p

from_loop :
    (dir : Directory) (offset : ℕ) (r : Prev)
    → offset % dirblksiz ≢ 0
    → Sound dir (offset - offset % dirblksiz) (offset % dirblksiz) 0 (offset - offset % dirblksiz) r
    → PrevOf dir offset r
from_loop dir offset endless ne c = c
from_loop dir offset no_prev ne c = λ (p, before). c.1 (p, moved p before)
  where
    moved :
        (p : ℕ)
        → IsBefore dir (offset - offset % dirblksiz) offset p
        → IsBefore dir
            (offset - offset % dirblksiz + 0)
            (offset - offset % dirblksiz + offset % dirblksiz)
            p
    moved p (leads, pos, last) =
        let start : offset - offset % dirblksiz ≡ offset - offset % dirblksiz + 0 = omega arith in
        (subst (λ a. Leads dir a p) start leads, pos, omega arith)
from_loop dir offset (prev p) ne (inl (end, same)) = absurd (omega arith)
from_loop dir offset (prev p) ne (inr (leads, pos, last)) =
    let start : offset - offset % dirblksiz + 0 ≡ offset - offset % dirblksiz = omega arith in
    (subst (λ a. Leads dir a p) start leads, pos, omega arith)

-- ufsdirhash_getprev ends; it gives the offset of the entry that the chain from the start of the
-- block reaches just before the entry, or -1 exactly when there is no such entry.
pub getprev-PrevOf : (dir : Directory) (offset : ℕ) → PrevOf dir offset (getprev dir offset)
unfolding getprev
getprev-PrevOf dir offset = elim (Bool-cases (offset % dirblksiz == 0)) [
  | inl t ↦
      rw t (λ (p, (leads, pos, last)). let le = Leads-le leads in absurd (at_start p le pos last t))
  | inr f ↦ rw f (
      from_loop dir offset _ (ground arith) (
        prev_loop-Sound dir (offset - offset % dirblksiz) (offset % dirblksiz)
          (offset % dirblksiz + 1) 0 (offset - offset % dirblksiz) (omega arith) (omega arith)))
]
  where
    at_start :
        (p : ℕ)
        → offset - offset % dirblksiz ≤ p
        → 0 < (dir.direct p).reclen
        → p + (dir.direct p).reclen ≡ offset
        → (offset % dirblksiz == 0) ≡ true
        → ⊥
    at_start p le pos last t = ground arith
