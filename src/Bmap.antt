-- ===== src/Bmap.antt =====
-- `ufs_getlbns` and `lbn_count` of ufsX/ufs/ufs/ufs_bmap.c: the path of indirect blocks to a logical
-- block. Block numbers are signed; `in_lbn` is never positive in the path, so the model stores
-- -in_lbn. `nindir` is `MNINDIR(ump)`. Products of up to three of it fit 64 bits for every block
-- size that a superblock may have, so they are written without wrap-around.
pub mod Digits
pub mod Path
use ufson_mac_os.Base.{
  ℕ, zero, suc, ◌+◌, ◌-◌, ◌*◌, ◌/◌, ◌%◌, Bool, true, false, ◌&&◌, Option, none, some,
}
use ufson_mac_os.Base.{List, [], ◌∷◌, ltb, ◌==◌, if◌then◌else◌}
use ufson_mac_os.Base.Int.{ℤ, pos, negsuc}

abbrev pub ufs_ndaddr : ℕ
ufs_ndaddr = 12

abbrev pub ufs_niaddr : ℕ
ufs_niaddr = 3

-- `struct indir`
pub record Indir : Type 0 where
  -- -in_lbn
  pub lbn : ℕ
  pub off : ℕ

-- What the first loop ends with: `i`, `blockcnt` and `bn`.
pub record Level : Type 0 where
  pub i : ℕ
  pub blockcnt : ℕ
  pub bn : ℕ

module _ (nindir : ℕ) where
  -- `lbn_count`
  pub lbn_count : ℕ → ℕ
  lbn_count zero = 1
  lbn_count (suc level) = nindir * lbn_count level

  -- The first loop, from `i` and the `blockcnt` before its multiplication; `none` is EFBIG.
  pub find_level : ℕ → ℕ → ℕ → Option Level
  find_level zero blockcnt bn = none
  find_level (suc i) blockcnt bn =
      let cnt = blockcnt * nindir in
      if ltb bn cnt
      then some (record { i = suc i; blockcnt = cnt; bn = bn })
      else find_level i cnt (bn - cnt)

  -- The second loop, with `left` rounds to go; `wanted` is -realbn when a metadata block is looked
  -- for.
  pub walk : Option ℕ → ℕ → ℕ → ℕ → ℕ → List Indir
  walk wanted zero blockcnt bn metalbn = []
  walk wanted (suc left) blockcnt bn metalbn =
      let cnt = blockcnt / nindir in
      let off = bn / cnt % nindir in
      let rest = walk wanted left cnt bn (metalbn + off * cnt - 1) in
      if elim wanted [ none ↦ false | some w ↦ w == metalbn ]
      then []
      else record { lbn = metalbn; off = off } ∷ rest

  pub path : Option ℕ → ℕ → Level → List Indir
  path wanted realbn l =
      let metalbn = realbn - l.bn + ufs_niaddr - l.i in
      record { lbn = metalbn; off = ufs_niaddr - l.i }
      ∷ walk wanted (ufs_niaddr + 1 - l.i) l.blockcnt l.bn metalbn

  pub on_level : Option ℕ → ℕ → Option Level → Option (List Indir)
  on_level wanted realbn none = none
  on_level wanted realbn (some l) = some (path wanted realbn l)

  pub lbns : Option ℕ → ℕ → Option (List Indir)
  lbns wanted bn =
      if ltb bn ufs_ndaddr
      then some []
      else on_level wanted bn (find_level ufs_niaddr 1 (bn - ufs_ndaddr))

  -- The array, whose length is `*nump`; `none` is EFBIG.
  pub getlbns : ℤ → Option (List Indir)
  getlbns (pos bn) = lbns none bn
  getlbns (negsuc n) = lbns (some (n + 1)) (n + 1)
