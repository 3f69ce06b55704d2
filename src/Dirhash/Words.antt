-- ===== src/Dirhash/Words.antt =====
-- The free words of the blocks of a directory: `ufsdirhash_newblk`, `ufsdirhash_dirtrunc`,
-- `ufsdirhash_enduseful` and the first loop of `ufsdirhash_findfree` of
-- ufsX/ufs/ufs/ufs_dirhash.c.
pub mod Indexed
pub mod Adjust
pub mod Refile
pub mod Roomy
pub mod Truncate
use ufson_mac_os.Base.{
  ℕ, zero, suc, ◌+◌, ◌-◌, ◌*◌, ◌/◌, Bool, true, false, ◌&&◌, not, Option, none, some, List,
}
use ufson_mac_os.Base.{ltb, leb, ◌==◌, if◌then◌else◌, get_or, set}
use ufson_mac_os.Dirhash.{Dirhash, After, kept, freed, lost, dirblksiz, diralign, nfstats, first_of}

-- The words of a block that holds no entry.
abbrev pub all_words : ℕ
all_words = dirblksiz / diralign

abbrev pub howmany : ℕ → ℕ → ℕ
howmany x y = (x + (y - 1)) / y

abbrev pub or_else : Option ℕ → Option ℕ → Option ℕ
or_else none rest = rest
or_else (some block) rest = some block

-- `for (; i <= DH_NFSTATS; i++) if ((dirblock = dh_firstfree[i]) != -1) break;`
pub roomy_block : ℕ → List (Option ℕ) → ℕ → Option ℕ
roomy_block zero firstfree i = none
roomy_block (suc left) firstfree i =
    or_else (first_of firstfree i) (roomy_block left firstfree (i + 1))

pub find_block : Dirhash → ℕ → Option ℕ
find_block dh slotneeded =
    let words = howmany slotneeded diralign in roomy_block (nfstats + 1 - words) dh.firstfree words

abbrev pub is_unused : List ℕ → ℕ → Bool
is_unused blkfree block = get_or blkfree block 0 == all_words

-- `for (i = blocks - 1; i >= 0; i--) if (dh_blkfree[i] != DIRBLKSIZ / DIRALIGN) break;`, `i + 1`
unfoldable pub useful_blocks : List ℕ → ℕ → ℕ
useful_blocks blkfree zero = 0
useful_blocks blkfree (suc blocks) =
    let rest = useful_blocks blkfree blocks in if is_unused blkfree blocks then rest else suc blocks

-- `none` for -1.
unfoldable pub enduseful : Dirhash → Option ℕ
enduseful dh =
    if is_unused dh.blkfree (dh.dirblks - 1)
    then some (useful_blocks dh.blkfree dh.dirblks * dirblksiz)
    else none

abbrev pub first_unused : ℕ → List (Option ℕ) → List (Option ℕ)
first_unused block firstfree = elim (first_of firstfree nfstats) [
  | none ↦ set firstfree nfstats (some block)
  | some b ↦ firstfree
]

pub newblk : Dirhash → ℕ → After
newblk dh offset =
    let block = offset / dirblksiz in
    if leb dh.nblk block
    then freed
    else kept (record dh {
      dirblks = block + 1;
      blkfree = set dh.blkfree block all_words;
      firstfree = first_unused block dh.firstfree;
    })

abbrev pub is_from : ℕ → Option ℕ → Bool
is_from block none = false
is_from block (some b) = leb block b

-- The two loops that panic, with the blocks and the sizes still to be looked at.
pub in_use_from : ℕ → List ℕ → ℕ → Bool
in_use_from zero blkfree block = true
in_use_from (suc left) blkfree block =
    let rest = in_use_from left blkfree (block + 1) in is_unused blkfree block && rest

pub first_before : ℕ → List (Option ℕ) → ℕ → Bool
first_before zero firstfree block = true
first_before (suc i) firstfree block =
    let rest = first_before i firstfree block in not (is_from block (first_of firstfree i)) && rest

pub dirtrunc : Dirhash → ℕ → After
dirtrunc dh offset =
    let block = howmany offset dirblksiz in
    let firstfree =
      if is_from block (first_of dh.firstfree nfstats)
      then set dh.firstfree nfstats none
      else dh.firstfree in
    if ltb block (dh.nblk / 8) && ltb 1 dh.narrays
    then freed
    else if in_use_from (dh.dirblks - block) dh.blkfree block
        && first_before nfstats firstfree block
    then kept (record dh { firstfree = firstfree; dirblks = block })
    else lost
