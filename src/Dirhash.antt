-- ===== src/Dirhash.antt =====
-- The hash of a directory, ufsX/ufs/ufs/ufs_dirhash.c and dirhash.h: the table of offsets with its
-- operations. The two levels of `dh_hash` are one array of `dh_hlen` slots, `fnv` stands for the
-- two calls of `fnv_32_buf`, and locks and reference counts are left out.
pub mod Probe
pub mod Valid
pub mod Insert
pub mod Delete
pub mod Find
pub mod Words
pub mod Block
pub mod Lookup
pub mod Build
pub mod Recycle
use ufson_mac_os.Base.{
  ℕ, zero, suc, ◌+◌, ◌-◌, ◌*◌, ◌/◌, ◌%◌, Bool, true, false, ◌||◌, not, Option, none, some, List,
}
use ufson_mac_os.Base.{ltb, leb, ◌==◌, if◌then◌else◌, get_or, set, length}
use ufson_mac_os.Base.Int.{ℤ, pos, negsuc}

-- DIRHASH_EMPTY, DIRHASH_DEL, or the offset of an entry of the directory.
pub data Entry : Type 0 where
  empty del : Entry
  at : ℕ → Entry

pub record Dirhash : Type 0 where
  pub hash : List Entry
  pub narrays : ℕ
  pub hlen : ℕ
  pub hused : ℕ
  pub blkfree : List ℕ
  pub nblk : ℕ
  pub dirblks : ℕ
  pub firstfree : List (Option ℕ)
  pub seqoff : Option ℕ
  pub score : ℕ

abbrev pub is_empty : Entry → Bool
is_empty empty = true
is_empty del = false
is_empty (at o) = false

abbrev pub is_del : Entry → Bool
is_del empty = false
is_del del = true
is_del (at o) = false

abbrev pub is_at : ℕ → Entry → Bool
is_at offset empty = false
is_at offset del = false
is_at offset (at o) = o == offset

-- `DH_ENTRY(dh, slot) >= 0`
abbrev pub is_offset : Entry → Bool
is_offset empty = false
is_offset del = false
is_offset (at o) = true

-- `DH_ENTRY`; the slots that the code computes are below `dh_hlen`.
abbrev pub entry : List Entry → ℕ → Entry
entry hash slot = get_or hash slot empty

abbrev pub wrap_incr : ℕ → ℕ → ℕ
wrap_incr limit i = if i + 1 == limit then 0 else i + 1

abbrev pub wrap_decr : ℕ → ℕ → ℕ
wrap_decr limit i = if i == 0 then limit - 1 else i - 1

-- `for (; !stop(DH_ENTRY(dh, slot)); ) slot = WRAPINCR(slot, dh_hlen)`; `none` when the loop has
-- not stopped after as many rounds as the first argument says.
pub scan : ℕ → List Entry → ℕ → (Entry → Bool) → ℕ → Option ℕ
scan zero hash limit stop slot = none
scan (suc rounds) hash limit stop slot =
    let rest = scan rounds hash limit stop (wrap_incr limit slot) in
    if stop (entry hash slot) then some slot else rest

abbrev pub Name : Type 0
Name = List ℕ

abbrev pub stops_find : ℕ → Entry → Bool
stops_find offset e = is_at offset e || is_empty e

module _ (fnv : Name → ℕ) where
  unfoldable pub hash : Dirhash → Name → ℕ
  hash dh name = fnv name % dh.hlen

  -- `none` for the panic on an entry that is not there, and for a loop that does not stop.
  pub findslot : Dirhash → Name → ℕ → Option ℕ
  unfolding hash
  findslot dh name offset = elim (scan dh.hlen dh.hash dh.hlen (stops_find offset) (hash dh name)) [
    | none ↦ none
    | some slot ↦ if is_at offset (entry dh.hash slot) then some slot else none
  ]

-- The loop of `delslot` back over the deleted slots, with the count of the slots in use.
pub undelete : ℕ → ℕ → ℕ → List Entry → ℕ → Option (List Entry × ℕ)
undelete zero limit i hash used = none
undelete (suc rounds) limit i hash used =
    let rest = undelete rounds limit (wrap_decr limit i) (set hash i empty) (used - 1) in
    if is_del (entry hash i) then rest else some (hash, used)

abbrev pub stops_chain : Entry → Bool
stops_chain e = not (is_del e)

abbrev pub with_table : Dirhash → Option (List Entry × ℕ) → Option Dirhash
with_table dh none = none
with_table dh (some (hash, used)) = some (record dh { hash = hash; hused = used })

pub at_end : Dirhash → List Entry → Option ℕ → Option Dirhash
unfolding undelete
at_end dh hash none = none
at_end dh hash (some i) =
    if is_empty (entry hash i)
    then with_table dh (undelete (dh.hlen + 1) dh.hlen (wrap_decr dh.hlen i) hash dh.hused)
    else some (record dh { hash = hash })

-- `none` for a loop that does not stop within a turn around the table.
pub delslot : Dirhash → ℕ → Option Dirhash
unfolding scan at_end
delslot dh slot =
    let hash = set dh.hash slot del in at_end dh hash (scan dh.hlen hash dh.hlen stops_chain slot)

abbrev pub dirblksiz : ℕ
dirblksiz = 512

abbrev pub diralign : ℕ
diralign = 4

-- `roundup2(8 + namlen + 1, 4)`
unfoldable pub directsiz : ℕ → ℕ
directsiz namlen = (8 + namlen + 1 + 3) / 4 * 4

-- DH_NFSTATS is DIRECTSIZ(256) / DIRALIGN.
abbrev pub nfstats : ℕ
nfstats = 67

abbrev pub blkfree_idx : ℕ → ℕ
blkfree_idx n = if ltb nfstats n then nfstats else n

-- The `u_int8_t` after `diff / DIRALIGN` words are added, which C divides towards 0.
abbrev pub shift_words : ℕ → ℤ → ℕ
shift_words words (pos n) = (words + n / diralign) % 256
shift_words words (negsuc n) = (words + 256 - (n + 1) / diralign % 256) % 256

-- `for (i = block + 1; i < dirblks; i++) if (BLKFREE2IDX(blkfree[i]) == idx) break;`
pub next_block : ℕ → List ℕ → ℕ → ℕ → Option ℕ
next_block zero blkfree idx i = none
next_block (suc left) blkfree idx i =
    let rest = next_block left blkfree idx (i + 1) in
    if blkfree_idx (get_or blkfree i 0) == idx then some i else rest

abbrev pub is_block : ℕ → Option ℕ → Bool
is_block block none = false
is_block block (some b) = b == block

abbrev pub is_after : ℕ → Option ℕ → Bool
is_after block none = true
is_after block (some b) = ltb block b

abbrev pub first_of : List (Option ℕ) → ℕ → Option ℕ
first_of firstfree idx = get_or firstfree idx none

-- The words of a block go from `old` to `new`, the table `blkfree` already holding `new`.
pub move_first : ℕ → List ℕ → ℕ → ℕ → ℕ → List (Option ℕ) → List (Option ℕ)
move_first dirblks blkfree block ofidx nfidx firstfree =
    let left =
      if is_block block (first_of firstfree ofidx)
      then set firstfree ofidx (next_block (dirblks - (block + 1)) blkfree ofidx (block + 1))
      else firstfree in
    if is_after block (first_of left nfidx) then set left nfidx (some block) else left

-- The index is touched only if the class of the block changes.
pub refile : ℕ → List ℕ → ℕ → ℕ → ℕ → List (Option ℕ) → List (Option ℕ)
unfolding move_first
refile dirblks blkfree block old new firstfree =
    if blkfree_idx old == blkfree_idx new
    then firstfree
    else move_first dirblks blkfree block (blkfree_idx old) (blkfree_idx new) firstfree

pub adjfree : Dirhash → ℕ → ℤ → Dirhash
unfolding refile
adjfree dh offset diff =
    let block = offset / dirblksiz in
    let old = get_or dh.blkfree block 0 in
    let new = shift_words old diff in
    let blkfree = set dh.blkfree block new in
    record dh {
      blkfree = blkfree;
      firstfree = refile dh.dirblks blkfree block old new dh.firstfree;
    }

-- The negative of a size, which is not 0.
abbrev pub minus : ℕ → ℤ
minus size = if size == 0 then pos 0 else negsuc (size - 1)

-- What an operation that may free the hash leaves: `lost` is a loop that does not stop or a panic.
pub data After : Type 0 where
  kept : Dirhash → After
  freed lost : After

pub insert_at : Dirhash → ℕ → Option ℕ → Option Dirhash
insert_at dh offset none = none
insert_at dh offset (some slot) = some (record dh {
  hash = set dh.hash slot (at offset);
  hused = if is_empty (entry dh.hash slot) then dh.hused + 1 else dh.hused;
})

abbrev pub removed : ℕ → ℕ → Option Dirhash → After
removed offset size none = lost
removed offset size (some dh) = kept (adjfree dh offset (pos size))

abbrev pub stops_add : Entry → Bool
stops_add e = not (is_offset e)

module _ (fnv : Name → ℕ) where
  -- The search for a free slot, and the write.
  pub put : Dirhash → Name → ℕ → Option Dirhash
  unfolding scan insert_at
  put dh name offset =
      insert_at dh offset (scan dh.hlen dh.hash dh.hlen stops_add (hash fnv dh name))

  pub add : Dirhash → Name → ℕ → After
  unfolding put adjfree
  add dh name offset = if leb (dh.hlen * 3 / 4) dh.hused then freed else elim (put dh name offset) [
    | none ↦ lost
    | some filled ↦ kept (adjfree filled offset (minus (directsiz (length name))))
  ]

  pub remove : Dirhash → Name → ℕ → After
  unfolding findslot delslot adjfree
  remove dh name offset = elim (findslot fnv dh name offset) [
    | none ↦ lost
    | some slot ↦ removed offset (directsiz (length name)) (delslot dh slot)
  ]

  pub move : Dirhash → Name → ℕ → ℕ → After
  unfolding findslot
  move dh name oldoff newoff = elim (findslot fnv dh name oldoff) [
    | none ↦ lost
    | some slot ↦ kept (record dh { hash = set dh.hash slot (at newoff) })
  ]
