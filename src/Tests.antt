-- ===== src/Tests.antt =====
-- Each theorem at a concrete input, and the code on small inputs.
mod Ffs
mod Super
mod Libufs
mod Inode
mod Bmap
mod Mount
mod Dirhash
mod Quota
mod Alloc
mod Mapsearch
use ufson_mac_os.Base.{
  ℕ, zero, suc, ◌<◌, Bool, true, false, ◌&&◌, List, [], ◌∷◌, ltb, get_or, ◌≡◌, arith,
}

-- Every entry of a concrete list is below `n`.
abbrev pub all_lt : ℕ → List ℕ → Bool
all_lt n [] = true
all_lt n (x ∷ xs) = ltb x n && all_lt n xs

pub get_or-all_lt : (n : ℕ) (l : List ℕ) → 0 < n → all_lt n l ≡ true → (i : ℕ) → get_or l i 0 < n
get_or-all_lt n [] pos h i = pos
get_or-all_lt n (x ∷ xs) pos h zero = ground arith
get_or-all_lt n (x ∷ xs) pos h (suc i) = get_or-all_lt n xs pos (ground arith) i
