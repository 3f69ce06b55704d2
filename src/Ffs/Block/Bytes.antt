-- ===== src/Ffs/Block/Bytes.antt =====
-- The free map as a set of fragments, and what each mask does to the bits of one byte.
use ufson_mac_os.Base.{ℕ, ◌+◌, ◌-◌, ◌*◌, ◌/◌, ◌%◌, ◌^◌, ◌<◌, Bool, true, false, List, not}
use ufson_mac_os.Base.{bit_and, bit_or, ◌==◌, if◌then◌else◌, get_or, u8, ◌≡◌, refl, arith}
use ufson_mac_os.Base.Bits.{all_below, all_below_sound}

-- `isset` of <sys/param.h>: bit `k` of a byte, and bit `i` of a map.
abbrev pub bit : ℕ → ℕ → Bool
bit b k = b / 2 ^ k % 2 == 1

abbrev pub isset : List ℕ → ℕ → Bool
isset cp i = bit (get_or cp (i / 8) 0) (i % 8)

infix 20 ◌iff◌
abbrev ◌iff◌ : Bool → Bool → Bool
true iff b = b
false iff b = not b

iff_eq : (a b : Bool) → (a iff b) ≡ true → a ≡ b
iff_eq true b h = ground arith
iff_eq false b h = ground arith

-- `w` ones at the `s`-th place of that width.
abbrev pub ones_at : ℕ → ℕ → ℕ
ones_at w s = (2 ^ w - 1) * 2 ^ (s * w)

abbrev set_bits : ℕ → ℕ → ℕ → ℕ → Bool
set_bits w s b k = bit (u8 (bit_or b (ones_at w s))) k iff (if k / w == s then true else bit b k)

abbrev clear_bits : ℕ → ℕ → ℕ → ℕ → Bool
clear_bits w s b k =
    bit (bit_and b (0xff - ones_at w s)) k iff (if k / w == s then false else bit b k)

abbrev all_set : ℕ → ℕ → ℕ → Bool
all_set w s b = bit_and b (ones_at w s) == ones_at w s iff all_below w (λ k. bit b (s * w + k))

abbrev all_clear : ℕ → ℕ → ℕ → Bool
all_clear w s b = bit_and b (ones_at w s) == 0 iff all_below w (λ k. not (bit b (s * w + k)))

-- Every place, byte and bit.
abbrev each_bit : (ℕ → ℕ → ℕ → Bool) → ℕ → Bool
each_bit p n = all_below n (λ s. all_below 256 (λ b. all_below 8 (p s b)))

abbrev each_byte : (ℕ → ℕ → Bool) → ℕ → Bool
each_byte p n = all_below n (λ s. all_below 256 (p s))

each_bit_sound :
    (p : ℕ → ℕ → ℕ → Bool) (n s b k : ℕ)
    → each_bit p n ≡ true
    → s < n
    → b < 256
    → k < 8
    → p s b k ≡ true
each_bit_sound p n s b k h hs hb hk =
    all_below_sound 8 (p s b) k (all_below_sound 256 _ b (all_below_sound n _ s h hs) hb) hk

each_byte_sound :
    (p : ℕ → ℕ → Bool) (n s b : ℕ) → each_byte p n ≡ true → s < n → b < 256 → p s b ≡ true
each_byte_sound p n s b h hs hb = all_below_sound 256 _ b (all_below_sound n _ s h hs) hb

module _ (s b k : ℕ) (hb : b < 256) (hk : k < 8) where
  pub bit-or4 : s < 2 → bit (u8 (bit_or b (ones_at 4 s))) k ≡ (if k / 4 == s then true else bit b k)
  unfolding all_below
  bit-or4 hs = iff_eq _ _ (each_bit_sound (set_bits 4) 2 s b k refl hs hb hk)

  pub bit-or2 : s < 4 → bit (u8 (bit_or b (ones_at 2 s))) k ≡ (if k / 2 == s then true else bit b k)
  unfolding all_below
  bit-or2 hs = iff_eq _ _ (each_bit_sound (set_bits 2) 4 s b k refl hs hb hk)

  pub bit-or1 : s < 8 → bit (u8 (bit_or b (ones_at 1 s))) k ≡ (if k / 1 == s then true else bit b k)
  unfolding all_below
  bit-or1 hs = iff_eq _ _ (each_bit_sound (set_bits 1) 8 s b k refl hs hb hk)

  pub bit-clear4 :
      s < 2 → bit (bit_and b (0xff - ones_at 4 s)) k ≡ (if k / 4 == s then false else bit b k)
  unfolding all_below
  bit-clear4 hs = iff_eq _ _ (each_bit_sound (clear_bits 4) 2 s b k refl hs hb hk)

  pub bit-clear2 :
      s < 4 → bit (bit_and b (0xff - ones_at 2 s)) k ≡ (if k / 2 == s then false else bit b k)
  unfolding all_below
  bit-clear2 hs = iff_eq _ _ (each_bit_sound (clear_bits 2) 4 s b k refl hs hb hk)

  pub bit-clear1 :
      s < 8 → bit (bit_and b (0xff - ones_at 1 s)) k ≡ (if k / 1 == s then false else bit b k)
  unfolding all_below
  bit-clear1 hs = iff_eq _ _ (each_bit_sound (clear_bits 1) 8 s b k refl hs hb hk)

module _ (s b : ℕ) (hb : b < 256) where
  pub all_set4 :
      s < 2 → bit_and b (ones_at 4 s) == ones_at 4 s ≡ all_below 4 (λ k. bit b (s * 4 + k))
  unfolding all_below
  all_set4 hs = iff_eq _ _ (each_byte_sound (all_set 4) 2 s b refl hs hb)

  pub all_set2 :
      s < 4 → bit_and b (ones_at 2 s) == ones_at 2 s ≡ all_below 2 (λ k. bit b (s * 2 + k))
  unfolding all_below
  all_set2 hs = iff_eq _ _ (each_byte_sound (all_set 2) 4 s b refl hs hb)

  pub all_set1 :
      s < 8 → bit_and b (ones_at 1 s) == ones_at 1 s ≡ all_below 1 (λ k. bit b (s * 1 + k))
  unfolding all_below
  all_set1 hs = iff_eq _ _ (each_byte_sound (all_set 1) 8 s b refl hs hb)

  pub all_clear4 : s < 2 → bit_and b (ones_at 4 s) == 0 ≡ all_below 4 (λ k. not (bit b (s * 4 + k)))
  unfolding all_below
  all_clear4 hs = iff_eq _ _ (each_byte_sound (all_clear 4) 2 s b refl hs hb)

  pub all_clear2 : s < 4 → bit_and b (ones_at 2 s) == 0 ≡ all_below 2 (λ k. not (bit b (s * 2 + k)))
  unfolding all_below
  all_clear2 hs = iff_eq _ _ (each_byte_sound (all_clear 2) 4 s b refl hs hb)

  pub all_clear1 : s < 8 → bit_and b (ones_at 1 s) == 0 ≡ all_below 1 (λ k. not (bit b (s * 1 + k)))
  unfolding all_below
  all_clear1 hs = iff_eq _ _ (each_byte_sound (all_clear 1) 8 s b refl hs hb)

module _ (b : ℕ) (hb : b < 256) where
  pub all_set8 : b == 0xff ≡ all_below 8 (λ k. bit b k)
  unfolding all_below
  all_set8 = iff_eq _ _ (all_below_sound 256 (λ c. c == 0xff iff all_below 8 (bit c)) b refl hb)

  pub all_clear8 : b == 0 ≡ all_below 8 (λ k. not (bit b k))
  unfolding all_below
  all_clear8 =
      iff_eq _ _ (all_below_sound 256 (λ c. c == 0 iff all_below 8 (λ k. not (bit c k))) b refl hb)
