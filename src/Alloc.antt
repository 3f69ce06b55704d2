-- ===== src/Alloc.antt =====
-- The allocator of ufsX/ufs/ffs/ffs_alloc.c: `ffs_hashalloc`, which tries the cylinder groups.
-- `allocator` stands for the routine that it is given, on a state of any type; a result of 0 is a
-- failure. The lock is left out.
pub mod Hashalloc
pub mod Mapsearch
pub mod Group
use ufson_mac_os.Base.{ℕ, zero, suc, ◌+◌, ◌-◌, ◌*◌, ◌%◌, Bool, true, false, not, Option, none, some}
use ufson_mac_os.Base.{ltb, leb, ◌==◌, if◌then◌else◌}

module _ {S : Type 0} (allocator : S → ℕ → ℕ → ℕ × S) (ncg : ℕ) where
  abbrev pub is_success : ℕ × S → Bool
  is_success r = not (r.0 == 0)

  -- `cg += i; if (cg >= fs_ncg) cg -= fs_ncg;`
  abbrev pub further : ℕ → ℕ → ℕ
  further cg i = if leb ncg (cg + i) then cg + i - ncg else cg + i

  -- The quadratic rehash; `none` when the rounds have run out. The result is that of the last
  -- attempt, or of `last` if there was none.
  unfoldable pub rehash : ℕ → ℕ → ℕ → ℕ × S → Option (ℕ × S)
  rehash zero i cg last = none
  rehash (suc rounds) i cg last =
      let next = further cg i in
      let result = allocator last.1 next 0 in
      let rest = rehash rounds (i * 2) next result in
      if ltb i ncg then if is_success result then some result else rest else some last

  -- `cg++; if (cg == fs_ncg) cg = 0;`
  abbrev pub next_group : ℕ → ℕ
  next_group cg = if cg + 1 == ncg then 0 else cg + 1

  -- The brute force search, with the rounds that are left.
  pub brute_force : ℕ → ℕ → ℕ × S → ℕ × S
  brute_force zero cg last = (0, last.1)
  brute_force (suc left) cg last =
      let result = allocator last.1 cg 0 in
      let rest = brute_force left (next_group cg) result in
      if is_success result then result else rest

  unfoldable pub hashalloc : S → ℕ → ℕ → Option (ℕ × S)
  hashalloc s icg pref =
      let first = allocator s icg pref in
      if is_success first then some first else elim (rehash ncg 1 icg first) [
        | none ↦ none
        | some result ↦
            if is_success result
            then some result
            else some (brute_force (ncg - 2) ((icg + 2) % ncg) result)
      ]
