-- ===== src/Base/Bits.antt =====
-- Bits of bytes, checks over small ranges by evaluation, and `&` with a low mask as a remainder.
use Prim.Native.Nat.{
  ℕ, zero, suc, ◌+◌, ◌-◌, ◌*◌, ◌/◌, ◌%◌, ◌≤◌, ◌<◌, min, bit_and, bit_and-bitwise, digits,
}
use mathlib.Core.Path.{◌≡◌, refl}
use mathlib.Core.Bool.{Bool, true, ◌&&◌}
use native.Mathlib.Omega.{arith}

-- `p` holds of every number below the bound.
unfoldable pub all_below : ℕ → (ℕ → Bool) → Bool
all_below zero p = true
all_below (suc bound) p = all_below bound p && p bound

pub all_below_sound :
    (bound : ℕ) (p : ℕ → Bool) (i : ℕ) → all_below bound p ≡ true → i < bound → p i ≡ true
unfolding all_below
all_below_sound zero p i all under = absurd (omega arith)
all_below_sound (suc bound) p i all under = ground (arith, all_below_sound bound p i)

pub all_below_complete :
    (n : ℕ) (p : ℕ → Bool) → ((x : ℕ) → x < n → p x ≡ true) → all_below n p ≡ true
unfolding all_below
all_below_complete zero p h = refl
all_below_complete (suc n) p h =
    ground (arith, h n (omega arith), all_below_complete n p (λ x lt. h x (omega arith)))

pub all_below_cong :
    (n : ℕ) (p q : ℕ → Bool) → ((x : ℕ) → x < n → p x ≡ q x) → all_below n p ≡ all_below n q
unfolding all_below
all_below_cong zero p q h = refl
all_below_cong (suc n) p q h =
    ground (arith, h n (omega arith), all_below_cong n p q (λ x lt. h x (omega arith)))

-- `&` from its low digits, `k` of them.
abbrev low_and : ℕ → ℕ → ℕ → ℕ
low_and k x y = digits (λ r. zero) min k x y

low_and-zero : (k y : ℕ) → low_and k 0 y ≡ 0
low_and-zero zero y = refl
low_and-zero (suc k) y = refl

-- Digits above the highest of `x` add nothing.
low_and_more : (k more x y : ℕ) → x ≤ k → low_and (k + more) x y ≡ low_and k x y
low_and_more zero more zero y h = low_and-zero (0 + more) y
low_and_more zero more (suc x) y h = absurd (omega arith)
low_and_more (suc k) more zero y h = low_and-zero (suc k + more) y
low_and_more (suc k) more (suc x) y h =
    let shape : suc k + more ≡ suc (k + more) = omega arith in
    let half = low_and_more k more (suc x / 2) (y / 2) (omega arith) in rw shape (omega arith)

pub bit_and_step : (a b : ℕ) → bit_and a b ≡ bit_and (a / 2) (b / 2) * 2 + min (a % 2) (b % 2)
bit_and_step zero b =
    let whole = bit_and-bitwise 0 b in let half = bit_and-bitwise 0 (b / 2) in omega arith
bit_and_step (suc a) b =
    let whole = bit_and-bitwise (suc a) b in
    let half = bit_and-bitwise (suc a / 2) (b / 2) in
    let rest : suc a / 2 + (a - suc a / 2) ≡ a = omega arith in
    let more = low_and_more (suc a / 2) (a - suc a / 2) (suc a / 2) (b / 2) (omega arith) in
    omega (arith, rw rest at more)

zero_lem : (bound a : ℕ) → a ≤ bound → bit_and a 0 ≡ 0
zero_lem bound zero h = refl
zero_lem zero (suc a) h = absurd (omega arith)
zero_lem (suc bound) (suc a) h =
    let half = zero_lem bound (suc a / 2) (omega arith) in
    let step = bit_and_step (suc a) 0 in omega arith

pub bit_and-zero : (a : ℕ) → bit_and a 0 ≡ 0
bit_and-zero a = zero_lem a a (omega arith)

pub bit_and-one : (a : ℕ) → bit_and a 1 ≡ a % 2
bit_and-one a = omega (arith, bit_and_step a 1, bit_and-zero (a / 2))

pub bit_and_three : (a : ℕ) → bit_and a 3 ≡ a % 4
bit_and_three a = omega (arith, bit_and_step a 3, bit_and-one (a / 2))

pub bit_and_seven : (a : ℕ) → bit_and a 7 ≡ a % 8
bit_and_seven a = omega (arith, bit_and_step a 7, bit_and_three (a / 2))

pub bit_and-le : (bound a b : ℕ) → a ≤ bound → bit_and a b ≤ a
bit_and-le bound zero b h = let whole = bit_and-bitwise 0 b in omega arith
bit_and-le zero (suc a) b h = absurd (omega arith)
bit_and-le (suc bound) (suc a) b h =
    let half = bit_and-le bound (suc a / 2) (b / 2) (omega arith) in
    let step = bit_and_step (suc a) b in omega arith
