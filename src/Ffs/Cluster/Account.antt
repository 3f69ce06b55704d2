-- ===== src/Ffs/Cluster/Account.antt =====
-- The counts of the free clusters in `ffs_clusteracct` of ufsX/ufs/ffs/ffs_subr.c.
use ufson_mac_os.Base.{ℕ, ◌+◌, ◌*◌, ◌%◌, ◌<◌, ◌≤◌, Bool, true, false, List}
use ufson_mac_os.Base.{
  ltb, ◌==◌, if◌then◌else◌, get_or, get_or-set, get_or-set-lt, length, length-set, u32_mod,
}
use ufson_mac_os.Base.{add32, sub32, ◌≡◌, ◌∙◌, refl, inl, inr, Bool-cases, arith, min}
use ufson_mac_os.Ffs.Fragacct.Counts.{AreWords}
use ufson_mac_os.Ffs.Cluster.{sum_add, sum_sub, Clusters, clusteracct, account}
use ufson_mac_os.Ffs.Cluster.Tally.{sized}

get_or-sum_add :
    (s : List ℕ) (i cnt k : ℕ)
    → i < length s
    → get_or (sum_add s i cnt) k 0 ≡ (if k == i then add32 (get_or s k 0) cnt else get_or s k 0)
get_or-sum_add s i cnt k h = ground (arith, get_or-set s i k (add32 (get_or s i 0) cnt) 0 h)

get_or-sum_sub :
    (s : List ℕ) (i cnt k : ℕ)
    → i < length s
    → 1 ≤ k
    → get_or (if ltb 0 i then sum_sub s i cnt else s) k 0
      ≡ (if k == i then sub32 (get_or s k 0) cnt else get_or s k 0)
get_or-sum_sub s i cnt k h pos = ground (arith, get_or-set s i k (sub32 (get_or s i 0) cnt) 0 h)

length-sum_sub :
    (s : List ℕ) (i cnt : ℕ) → length (if ltb 0 i then sum_sub s i cnt else s) ≡ length s
length-sum_sub s i cnt = ground (arith, length-set s i (sub32 (get_or s i 0) cnt))

-- A run of `m` blocks counts for the size that the code computes for it.
sized_lem : (c k m : ℕ) → 1 ≤ k → sized c k m ≡ (if k == min c m then 1 else 0)
unfolding sized
sized_lem c k m h = ground arith

balance :
    (x cnt : ℕ) (p q r : Bool)
    → let y = if p then add32 x cnt else x in
      let z = if q then sub32 y cnt else y in
      ((if r then sub32 z cnt else z) + ((if q then 1 else 0) + (if r then 1 else 0)) * cnt)
        % u32_mod
      ≡ (x + (if p then 1 else 0) * cnt) % u32_mod
balance x cnt true true true = omega arith
balance x cnt true true false = omega arith
balance x cnt true false true = omega arith
balance x cnt true false false = omega arith
balance x cnt false true true = omega arith
balance x cnt false true false = omega arith
balance x cnt false false true = omega arith
balance x cnt false false false = omega arith

-- Entry `k` after the three updates, with `back` and `forw` cut off at `c`.
module _ (c : ℕ) (s : List ℕ) (b f cnt k : ℕ) (room : c < length s) (words : AreWords s)
    (lo : 1 ≤ k) (cpos : 1 ≤ c) where
  abbrev pub entry : ℕ
  entry = get_or (account c s (min c b) (min c f) cnt) k 0

  abbrev pub joined : ℕ
  joined = if ltb c (min c b + min c f + 1) then c else min c b + min c f + 1

  abbrev pub first : List ℕ
  first = sum_add s joined cnt

  abbrev pub second : List ℕ
  second = if ltb 0 (min c b) then sum_sub first (min c b) cnt else first

  length-first : length first ≡ length s
  length-first = length-set s joined (add32 (get_or s joined 0) cnt)

  length-second : length second ≡ length s
  length-second = length-sum_sub first (min c b) cnt ∙ length-first

  joined_lem : joined ≡ min c (b + 1 + f)
  joined_lem = ground arith

  pub account_lem :
      (entry + (sized c k b + sized c k f) * cnt) % u32_mod
      ≡ (get_or s k 0 + sized c k (b + 1 + f) * cnt) % u32_mod
  unfolding account
  account_lem =
      rw
        (
          get_or-sum_sub second (min c f) cnt k (rw length-second (omega arith)) lo,
          get_or-sum_sub first (min c b) cnt k (rw length-first (omega arith)) lo,
          get_or-sum_add s joined cnt k (rw joined_lem (omega arith)),
          joined_lem,
          sized_lem c k b lo,
          sized_lem c k f lo,
          sized_lem c k (b + 1 + f) lo,
        )
        (balance (get_or s k 0) cnt (k == min c (b + 1 + f)) (k == min c b) (k == min c f))

sum_add-AreWords : (s : List ℕ) (i cnt : ℕ) → AreWords s → AreWords (sum_add s i cnt)
sum_add-AreWords s i cnt words j =
    get_or-set-lt s i j (add32 (get_or s i 0) cnt) u32_mod (omega arith) (words j)

sum_sub-AreWords :
    (s : List ℕ) (i cnt : ℕ) → AreWords s → AreWords (if ltb 0 i then sum_sub s i cnt else s)
sum_sub-AreWords s i cnt words j =
    ground (
      arith,
      words j,
      get_or-set-lt s i j (sub32 (get_or s i 0) cnt) u32_mod (omega arith) (words j),
    )

pub account-AreWords :
    (c : ℕ) (s : List ℕ) (b f cnt : ℕ) → AreWords s → AreWords (account c s b f cnt)
unfolding account
account-AreWords c s b f cnt words =
    sum_sub-AreWords _ f cnt (sum_sub-AreWords _ b cnt (sum_add-AreWords s _ cnt words))

pub length-account : (c : ℕ) (s : List ℕ) (b f cnt : ℕ) → length (account c s b f cnt) ≡ length s
unfolding account
length-account c s b f cnt =
    length-sum_sub _ f cnt ∙ length-sum_sub _ b cnt ∙ length-set s _ (add32 (get_or s _ 0) cnt)

pub nblks-clusteracct :
    (c : ℕ) (cg : Clusters) (b cnt : ℕ) → (clusteracct c cg b cnt).nblks ≡ cg.nblks
unfolding clusteracct
nblks-clusteracct c cg b cnt = elim (Bool-cases (c == 0)) [ inl e ↦ rw e refl | inr e ↦ rw e refl ]
