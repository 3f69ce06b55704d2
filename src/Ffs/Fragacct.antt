-- ===== src/Ffs/Fragacct.antt =====
-- `ffs_fragacct` of ufsX/ufs/ffs/ffs_subr.c, which counts a block's free fragments by size. The
-- counts are 32-bit residues, so `cnt` is 1 or `minus_one`. The loop over the positions takes
-- fuel: each round advances `pos`, so `fs_frag + 1` rounds are enough, which `Runs` shows by the
-- values that the loop reaches.
pub mod Runs
pub mod Counts
use ufson_mac_os.Base.{ℕ, zero, suc, ◌+◌, ◌-◌, ◌%◌, Bool, true, false, List, bit_and}
use ufson_mac_os.Base.{leb, ◌==◌, if◌then◌else◌, get_or, set, add32, ◌<<<◌}
use ufson_mac_os.Ffs.Tables.{around, inside, fragtbl}

-- `fraglist[siz] += cnt`
pub bump : List ℕ → ℕ → ℕ → List ℕ
bump fraglist siz cnt = set fraglist siz (add32 (get_or fraglist siz 0) cnt)

-- The loop `for (pos = siz; pos <= fs->fs_frag; pos++)`.
module _ (frag fragmap siz cnt : ℕ) where
  pub positions : ℕ → ℕ → ℕ → ℕ → List ℕ → List ℕ
  positions zero pos field subfield fraglist = fraglist
  positions (suc fuel) pos field subfield fraglist = elim (leb pos frag) [
    | true ↦ elim (bit_and fragmap field == subfield) [
      | true ↦
          positions fuel (pos + siz + 1) (field <<< siz <<< 1) (subfield <<< siz <<< 1)
            (bump fraglist siz cnt)
      | false ↦ positions fuel (pos + 1) (field <<< 1) (subfield <<< 1) fraglist
    ]
    | false ↦ fraglist
  ]

-- Whether the table says that the block has no fragment of size `siz`; `NBBY` is 8.
abbrev pub lacks_size : ℕ → ℕ → ℕ → Bool
lacks_size frag inblk siz = bit_and inblk (1 <<< (siz + frag % 8)) == 0

-- The loop `for (siz = 1; siz < fs->fs_frag; siz++)`, with `left` rounds to go.
pub sizes : ℕ → ℕ → ℕ → ℕ → ℕ → ℕ → List ℕ → List ℕ
sizes frag fragmap inblk cnt zero siz fraglist = fraglist
sizes frag fragmap inblk cnt (suc left) siz fraglist = sizes frag fragmap inblk cnt left (siz + 1) (
    if lacks_size frag inblk siz
    then fraglist
    else positions frag fragmap siz cnt (frag + 1) siz (get_or around siz 0) (get_or inside siz 0)
        fraglist)

pub fragacct : ℕ → ℕ → List ℕ → ℕ → List ℕ
fragacct frag fragmap fraglist cnt =
    sizes frag (fragmap <<< 1) (get_or (fragtbl frag) fragmap 0 <<< 1) cnt (frag - 1) 1 fraglist
