-- ===== src/Quota/Limits.antt =====
-- The limits of a quota of ufsX/ufs/ufs/ufs_quota.c: what `chkdqchg` and `chkiqchg` allow.
use ufson_mac_os.Base.{ℕ, ◌+◌, ◌-◌, ◌≤◌, ◌<◌, ◌≡◌, ◌⊎◌, inl, inr, refl, arith, true, false}
use ufson_mac_os.Base.{ltb, ◌==◌, Bool-cases}
use ufson_mac_os.Quota.{Meter, Env, Checked, allowed, denied, check_change, grow, shrink, reaches}

-- The use may grow by `n`: it stays below the hard limit, and below the soft limit unless it is
-- just crossing it or the grace has not ended.
pub record Fits (env : Env) (m : Meter) (n : ℕ) : Type 0 where
  pub below_hard : (m.hardlimit ≡ 0) ⊎ (m.cur + n < m.hardlimit)
  pub below_soft :
      (m.softlimit ≡ 0) ⊎ ((m.cur + n < m.softlimit) ⊎ ((m.cur < m.softlimit) ⊎ (env.now ≤ m.time)))

-- Use and limits are the same.
pub record SameUse (m m' : Meter) : Type 0 where
  pub cur : m'.cur ≡ m.cur
  pub hardlimit : m'.hardlimit ≡ m.hardlimit
  pub softlimit : m'.softlimit ≡ m.softlimit

-- What a check says.
abbrev pub Verdict : Env → ℕ → Meter → Checked → Type 0
Verdict env n m (allowed m') = Fits env m n × SameUse m m'
Verdict env n m (denied m') = ¬ Fits env m n × SameUse m m'

reached : (n limit : ℕ) → reaches n limit ≡ true → ¬ ((limit ≡ 0) ⊎ (n < limit))
reached n limit t below = ground arith

not_reached : (n limit : ℕ) → reaches n limit ≡ false → (limit ≡ 0) ⊎ (n < limit)
not_reached n limit f = elim (Bool-cases (limit == 0)) [
  | inl z ↦ inl (ground arith)
  | inr z ↦ inr (ground arith)
]

soften :
    (env : Env) (m : Meter) (n : ℕ)
    → (m.softlimit ≡ 0) ⊎ (m.cur + n < m.softlimit)
    → (m.softlimit ≡ 0) ⊎ ((m.cur + n < m.softlimit) ⊎ ((m.cur < m.softlimit) ⊎ (env.now ≤ m.time)))
soften env m n (inl z) = inl z
soften env m n (inr lt) = inr (inl lt)

-- Over the soft limit, and the grace has ended.
over :
    (env : Env) (m : Meter) (n : ℕ)
    → reaches (m.cur + n) m.softlimit ≡ true
    → ltb m.cur m.softlimit ≡ false
    → ltb m.time env.now ≡ true
    → ¬ Fits env m n
over env m n soft high late fits = refute fits.below_soft
  where
    refute : ¬ (
        (m.softlimit ≡ 0)
        ⊎ ((m.cur + n < m.softlimit) ⊎ ((m.cur < m.softlimit) ⊎ (env.now ≤ m.time))))
    refute (inl z) = reached (m.cur + n) m.softlimit soft (inl z)
    refute (inr (inl lt)) = reached (m.cur + n) m.softlimit soft (inr lt)
    refute (inr (inr (inl lt))) = ground arith
    refute (inr (inr (inr le))) = ground arith

pub check_change-Verdict :
    (env : Env) (grace n : ℕ) (m : Meter) → Verdict env n m (check_change env grace n m)
unfolding check_change
check_change-Verdict env grace n m = elim (Bool-cases (reaches (m.cur + n) m.hardlimit)) [
  | inl t ↦ rw t (
    λ fits. reached (m.cur + n) m.hardlimit t fits.below_hard,
    record { cur = refl; hardlimit = refl; softlimit = refl },
  )
  | inr f ↦
      let hard = not_reached (m.cur + n) m.hardlimit f in
      rw f (elim (Bool-cases (reaches (m.cur + n) m.softlimit)) [
        | inr g ↦ rw g (
          record { below_hard = hard; below_soft = soften env m n (not_reached _ _ g) },
          record { cur = refl; hardlimit = refl; softlimit = refl },
        )
        | inl t ↦ rw t (elim (Bool-cases (ltb m.cur m.softlimit)) [
          | inl low ↦ rw low (
            record { below_hard = hard; below_soft = inr (inr (inl (ground arith))) },
            record { cur = refl; hardlimit = refl; softlimit = refl },
          )
          | inr high ↦ rw high (elim (Bool-cases (ltb m.time env.now)) [
            | inl late ↦ rw late (
              over env m n t high late,
              record { cur = refl; hardlimit = refl; softlimit = refl },
            )
            | inr early ↦ rw early (
              record { below_hard = hard; below_soft = inr (inr (inr (ground arith))) },
              record { cur = refl; hardlimit = refl; softlimit = refl },
            )
          ])
        ])
      ])
]

pub grow_lem :
    (env : Env) (grace n : ℕ) (m : Meter)
    → ((grow env grace n m).cur ≡ m.cur + n)
      × ((grow env grace n m).hardlimit ≡ m.hardlimit)
      × ((grow env grace n m).softlimit ≡ m.softlimit)
unfolding grow
grow_lem env grace n m = ground arith

pub shrink_lem :
    (n : ℕ) (m : Meter)
    → ((shrink n m).cur ≡ m.cur - n)
      × ((shrink n m).hardlimit ≡ m.hardlimit)
      × ((shrink n m).softlimit ≡ m.softlimit)
unfolding shrink
shrink_lem n m = ground arith
