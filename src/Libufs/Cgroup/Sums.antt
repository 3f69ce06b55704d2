-- ===== src/Libufs/Cgroup/Sums.antt =====
-- The summaries of all groups, as `fs_csp` of ufsX/ufs/ffs/fs.h holds them, and a count's total.
use ufson_mac_os.Base.{ℕ, zero, suc, ◌+◌, ◌<◌, ◌≤◌, List, [], ◌∷◌, set, length, ◌≡◌, refl, arith}
use ufson_mac_os.Libufs.Disk.{Csum}
use ufson_mac_os.Libufs.Cgroup.{fs_cs}

module _ (count : Csum → ℕ) where
  abbrev pub sum_cs : List Csum → ℕ
  sum_cs [] = 0
  sum_cs (cs ∷ csp) = count cs + sum_cs csp

  pub sum_cs-set :
      (csp : List Csum) (i : ℕ) (cs : Csum)
      → i < length csp
      → sum_cs (set csp i cs) + count (fs_cs csp i) ≡ sum_cs csp + count cs
  sum_cs-set [] i cs h = absurd (omega arith)
  sum_cs-set (x ∷ csp) zero cs h = omega arith
  sum_cs-set (x ∷ csp) (suc i) cs h = omega (arith, sum_cs-set csp i cs (omega arith))

  pub fs_cs-le : (csp : List Csum) (i : ℕ) → i < length csp → count (fs_cs csp i) ≤ sum_cs csp
  fs_cs-le [] i h = absurd (omega arith)
  fs_cs-le (x ∷ csp) zero h = omega arith
  fs_cs-le (x ∷ csp) (suc i) h = omega (arith, fs_cs-le csp i (omega arith))

pub fs_cs-set : (csp : List Csum) (i : ℕ) (cs : Csum) → i < length csp → fs_cs (set csp i cs) i ≡ cs
fs_cs-set [] i cs lt = absurd (omega arith)
fs_cs-set (x ∷ csp) zero cs lt = refl
fs_cs-set (x ∷ csp) (suc i) cs lt = fs_cs-set csp i cs (omega arith)
