-- ===== src/Base/Word.antt =====
-- Machine words as natural numbers, with the wrap-around written out.
use Prim.Native.Nat.{ℕ, ◌+◌, ◌-◌, ◌*◌, ◌/◌, ◌%◌, ◌^◌}

abbrev pub u8 : ℕ → ℕ
u8 n = n % 256

-- Arithmetic on `int32_t` and `uint32_t`, as a residue modulo 2 ^ 32; -1 is `minus_one`.
abbrev pub u32_mod : ℕ
u32_mod = 0x100000000

abbrev pub add32 : ℕ → ℕ → ℕ
add32 a b = (a + b) % 0x100000000

abbrev pub sub32 : ℕ → ℕ → ℕ
sub32 a b = (a + 0x100000000 - b % 0x100000000) % 0x100000000

abbrev pub minus_one : ℕ
minus_one = 0xffffffff

infixl 75 ◌<<<◌ ◌>>>◌
abbrev pub ◌<<<◌ : ℕ → ℕ → ℕ
x <<< k = x * 2 ^ k

abbrev pub ◌>>>◌ : ℕ → ℕ → ℕ
x >>> k = x / 2 ^ k
