-- ===== src/Quota/Within.antt =====
-- The hard limits of ufsX/ufs/ufs/ufs_quota.c under `chkdq`.
use ufson_mac_os.Base.{
  ℕ, zero, suc, ◌+◌, ◌≤◌, ◌<◌, ◌≡◌, ◌⊎◌, inl, inr, ◌∙◌, arith, Option, none, some, List, [], ◌∷◌,
  map, true, false, Bool-cases,
}
use ufson_mac_os.Base.Int.{ℤ, pos, negsuc}
use ufson_mac_os.Quota.{
  Meter, Dquot, Env, Inode, Outcome, done, edquot, each, free_blocks, chkdq, is_exempt, shrink,
}
use ufson_mac_os.Quota.Limits.{Fits, shrink_lem}
use ufson_mac_os.Quota.Charge.{Charged, Kept, Settles}
use ufson_mac_os.Quota.Totals.{blocks_of, inodes_of, AllowsBlocks, chkdq-Settles}

-- The use is not over the hard limit, if there is one.
abbrev pub IsWithin : Meter → Type 0
IsWithin m = (m.hardlimit ≡ 0) ⊎ (m.cur ≤ m.hardlimit)

abbrev pub AllWithin : List (Option Dquot) → Type 0
AllWithin [] = Unit
AllWithin (none ∷ ds) = AllWithin ds
AllWithin (some dq ∷ ds) = IsWithin dq.blocks × AllWithin ds

abbrev pub dquots_of : Outcome → List (Option Dquot)
dquots_of (done ds) = ds
dquots_of (edquot ds) = ds

lower : (m m' : Meter) → m'.hardlimit ≡ m.hardlimit → m'.cur ≤ m.cur → IsWithin m → IsWithin m'
lower m m' h le (inl z) = inl (h ∙ z)
lower m m' h le (inr w) = inr (omega arith)

freed-AllWithin :
    (n : ℕ) (ds : List (Option Dquot)) → AllWithin ds → AllWithin (map (each (free_blocks n)) ds)
freed-AllWithin n [] w = tt
freed-AllWithin n (none ∷ ds) w = freed-AllWithin n ds w
freed-AllWithin n (some dq ∷ ds) w =
    let g = shrink_lem n dq.blocks in
    (lower dq.blocks (shrink n dq.blocks) g.1 (omega (arith, g.0)) w.0, freed-AllWithin n ds w.1)

module _ (env : Env) (n : ℕ) where
  grown-IsWithin :
      (m m' : Meter) → Fits env m n → m'.cur ≡ m.cur + n → m'.hardlimit ≡ m.hardlimit → IsWithin m'
  grown-IsWithin m m' f e h = by_limit f.below_hard
    where
      by_limit : (m.hardlimit ≡ 0) ⊎ (m.cur + n < m.hardlimit) → IsWithin m'
      by_limit (inl z) = inl (h ∙ z)
      by_limit (inr lt) = inr (omega arith)

  Charged-AllWithin :
      (type : ℕ) (ds ds' : List (Option Dquot))
      → Charged blocks_of inodes_of n (AllowsBlocks true env n) type ds ds'
      → AllWithin ds'
  Charged-AllWithin type [] [] c = tt
  Charged-AllWithin type (none ∷ ds) (none ∷ ds') c = Charged-AllWithin (suc type) ds ds' c
  Charged-AllWithin type (some dq ∷ ds) (some dq' ∷ ds') c =
      let g = c.1 in
      (
        grown-IsWithin dq.blocks dq'.blocks c.0 g.more g.hard_same,
        Charged-AllWithin (suc type) ds ds' c.2,
      )
  Charged-AllWithin type [] (d ∷ ds') c = absurd c
  Charged-AllWithin type (none ∷ ds) [] c = absurd c
  Charged-AllWithin type (some dq ∷ ds) [] c = absurd c
  Charged-AllWithin type (none ∷ ds) (some d ∷ ds') c = absurd c
  Charged-AllWithin type (some dq ∷ ds) (none ∷ ds') c = absurd c

  Kept-AllWithin :
      (ds ds' : List (Option Dquot))
      → Kept blocks_of inodes_of n (AllowsBlocks true env n) ds ds'
      → AllWithin ds
      → AllWithin ds'
  Kept-AllWithin [] [] k w = tt
  Kept-AllWithin (none ∷ ds) (none ∷ ds') k w = Kept-AllWithin ds ds' k w
  Kept-AllWithin (some dq ∷ ds) (some dq' ∷ ds') k w =
      let same = k.0 in
      let same_use = same.use_same in
      (
        lower dq.blocks dq'.blocks same_use.hardlimit (omega (arith, same_use.cur)) w.0,
        Kept-AllWithin ds ds' k.1 w.1,
      )
  Kept-AllWithin [] (d ∷ ds') k w = absurd k
  Kept-AllWithin (none ∷ ds) [] k w = absurd k
  Kept-AllWithin (some dq ∷ ds) [] k w = absurd k
  Kept-AllWithin (none ∷ ds) (some d ∷ ds') k w = absurd k
  Kept-AllWithin (some dq ∷ ds) (none ∷ ds') k w = absurd k

  settled :
      (ds : List (Option Dquot)) (r : Outcome)
      → Settles blocks_of inodes_of n (AllowsBlocks true env n) 0 ds r
      → AllWithin ds
      → AllWithin (dquots_of r)
  settled ds (done ds') s w = Charged-AllWithin 0 ds ds' s
  settled ds (edquot ds') s w = Kept-AllWithin ds ds' s.1 w

-- chkdq that is neither forced nor privileged, by whatever change, leaves the use of no quota over
-- its hard limit if none was over it before.
pub chkdq-AllWithin :
    (env : Env) (change : ℤ) (ip : Inode)
    → AllWithin ip.dquots
    → AllWithin (dquots_of (chkdq env false false change ip))
unfolding chkdq
chkdq-AllWithin env (pos zero) ip w = elim (Bool-cases (is_exempt ip)) [
  | inl t ↦ rw t w
  | inr f ↦ rw f w
]
chkdq-AllWithin env (pos (suc n)) ip w = elim (Bool-cases (is_exempt ip)) [
  | inl t ↦ rw t w
  | inr f ↦ settled env (suc n) ip.dquots _ (chkdq-Settles env false false n ip f) w
]
chkdq-AllWithin env (negsuc n) ip w = elim (Bool-cases (is_exempt ip)) [
  | inl t ↦ rw t w
  | inr f ↦ rw f (freed-AllWithin (suc n) ip.dquots w)
]
