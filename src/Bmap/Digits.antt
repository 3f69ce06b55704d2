-- ===== src/Bmap/Digits.antt =====
-- Digits of a number to the base `n`.
use ufson_mac_os.Base.{ℕ, suc, ◌+◌, ◌*◌, ◌/◌, ◌%◌, ◌^◌, ◌<◌, ◌≡◌, ap, arith}
use native.Mathlib.Nat.{div-add-mod', div-div-eq-div-mul, one-le-pow, pow-suc, mul-div_cancel}

pub mod-mul : (x a n : ℕ) → x % (a * n) ≡ x / a % n * a + x % a
mod-mul x a n = omega (
  arith,
  div-add-mod' x a,
  ap (λ (t : ℕ). t * a) (div-add-mod' (x / a) n),
  ap (λ (t : ℕ). t * n * a) (div-div-eq-div-mul x a n),
  div-add-mod' x (a * n),
)

pub pow_pos : (n k : ℕ) → 0 < n → 0 < n ^ k
pow_pos n k h = one-le-pow k n h

pub pow-suc-div : (n k : ℕ) → 0 < n → n ^ suc k / n ≡ n ^ k
pow-suc-div n k h = rw pow-suc (mul-div_cancel (n ^ k) h)
