-- ===== src/Base/Count.antt =====
-- How many numbers below a bound have a property.
use Prim.Native.Nat.{ℕ, zero, suc, ◌+◌, ◌≤◌, ◌<◌}
use mathlib.Core.Path.{◌≡◌, refl, ap, subst}
use mathlib.Core.Logic.{◌≢◌, inl, inr}
use mathlib.Core.Bool.{Bool, true, false}
use native.Mathlib.Omega.{arith}
use ufson_mac_os.Base.Tests.{◌==◌, if◌then◌else◌, Bool-cases}

-- The numbers below the bound that `p` holds of.
unfoldable pub count_below : ℕ → (ℕ → Bool) → ℕ
count_below zero p = 0
count_below (suc n) p = (if p n then 1 else 0) + count_below n p

pub count_below-le : (n : ℕ) (p : ℕ → Bool) → count_below n p ≤ n
unfolding count_below
count_below-le zero p = omega arith
count_below-le (suc n) p = ground (arith, count_below-le n p)

pub count_below_cong :
    (n : ℕ) (p q : ℕ → Bool) → ((i : ℕ) → i < n → p i ≡ q i) → count_below n p ≡ count_below n q
unfolding count_below
count_below_cong zero p q same = refl
count_below_cong (suc n) p q same =
    rw (same n (omega arith), count_below_cong n p q (λ i lt. same i (omega arith))) refl

-- One number fewer.
pub count_below_less :
    (n h : ℕ) (p q : ℕ → Bool)
    → h < n
    → p h ≡ true
    → q h ≡ false
    → ((i : ℕ) → i ≢ h → i < n → p i ≡ q i)
    → count_below n p ≡ suc (count_below n q)
unfolding count_below
count_below_less zero h p q lt member gone same = absurd (omega arith)
count_below_less (suc n) h p q lt member gone same = elim (Bool-cases (h == n)) [
  | inl e ↦
      let at : h ≡ n = ground arith in
      let rest = count_below_cong n p q (λ i below. same i (omega arith) (omega arith)) in
      ground (arith, ap p at, ap q at)
  | inr e ↦
      let below : h < n = ground arith in
      let off : n ≢ h = ground arith in
      rw
        (
          same n off (omega arith),
          count_below_less n h p q below member gone (λ i ne low. same i ne (omega arith)),
        )
        (omega arith)
]

-- A number that it holds of is counted.
pub count_below_pos : (n i : ℕ) (p : ℕ → Bool) → i < n → p i ≡ true → 0 < count_below n p
unfolding count_below
count_below_pos zero i p lt h = absurd (omega arith)
count_below_pos (suc n) i p lt h = elim (Bool-cases (i == n)) [
  | inl e ↦
      let at : i ≡ n = ground arith in
      let last : p n ≡ true = subst (λ t. p t ≡ true) at h in ground arith
  | inr e ↦ let low : i < n = ground arith in let rest = count_below_pos n i p low h in omega arith
]

-- A count that is not 0 has a member.
pub count_member : (n : ℕ) (p : ℕ → Bool) → 0 < count_below n p → (i : ℕ) × (i < n) × (p i ≡ true)
unfolding count_below
count_member zero p pos = absurd (omega arith)
count_member (suc n) p pos = elim (Bool-cases (p n)) [
  | inl e ↦ (n, omega arith, e)
  | inr e ↦ let (i, lt, h) = count_member n p (ground arith) in (i, omega arith, h)
]
