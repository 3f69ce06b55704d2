-- ===== src/Tests/Alloc.antt =====
-- Five cylinder groups, of which only the last but one has room.
use ufson_mac_os.Base.{ℕ, ◌≡◌, refl, arith, ◌==◌, if◌then◌else◌, ◌+◌, ◌-◌, some}
use ufson_mac_os.Alloc.{hashalloc, rehash}
use ufson_mac_os.Alloc.Hashalloc.{Searches, hashalloc-Searches}

-- The state is the number of blocks that group 3 has left.
abbrev room : ℕ → ℕ → ℕ → ℕ × ℕ
room left cg pref =
    if cg == 3 then (if left == 0 then (0, left) else (100 + left, left - 1)) else (0, left)

keeps : (s cg pref : ℕ) → (room s cg pref).0 ≡ 0 → (room s cg pref).1 ≡ s
keeps s cg pref e = ground arith

hashalloc-Searches_example : Searches room 5 keeps 2 1 9 (hashalloc room 5 2 1 9)
hashalloc-Searches_example = hashalloc-Searches room 5 keeps 2 1 9 (omega arith)

takes_one : hashalloc room 5 2 1 9 ≡ some (102, 1)
unfolding hashalloc rehash
takes_one = refl
