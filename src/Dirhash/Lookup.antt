-- ===== src/Dirhash/Lookup.antt =====
-- `ufsdirhash_lookup` of ufsX/ufs/ufs/ufs_dirhash.c: the loop over the slots, the start at the entry
-- after the last one looked up, and the retry. A block is read for every entry; the code keeps the
-- last one.
pub mod Walk
pub mod Names
pub mod Answer
use ufson_mac_os.Base.{
  ℕ, zero, suc, ◌+◌, ◌-◌, ◌%◌, Bool, true, false, not, ◌&&◌, ◌||◌, Option, none, some, List, [],
  ◌∷◌,
}
use ufson_mac_os.Base.{ltb, leb, ◌==◌, if◌then◌else◌, length}
use ufson_mac_os.Dirhash.{
  Entry, empty, del, at, Dirhash, Name, entry, scan, stops_find, is_at, wrap_incr, hash, directsiz,
  dirblksiz,
}
use ufson_mac_os.Dirhash.Block.{Directory, Prev, prev, no_prev, endless, getprev}

pub bytes_eq : Name → Name → Bool
bytes_eq [] [] = true
bytes_eq [] (c ∷ b) = false
bytes_eq (c ∷ a) [] = false
bytes_eq (c ∷ a) (d ∷ b) = c == d && bytes_eq a b

-- The offset with that of the entry before, if it was asked for; `bad_offset` is the panic,
-- `mismatch` the jump to `restart`, and `lost` a loop that goes on.
pub data Reply : Type 0 where
  found : ℕ → Option ℕ → Reply
  enoent ejustreturn bad_offset mismatch lost : Reply

abbrev pub with_prev : ℕ → Prev → Reply
with_prev offset (prev p) = found offset (some p)
with_prev offset no_prev = ejustreturn
with_prev offset endless = lost

pub found_reply : Directory → Bool → ℕ → Reply
found_reply dir wants_prev offset =
    if wants_prev
    then if offset % dirblksiz == 0
      then found offset (some offset)
      else with_prev offset (getprev dir offset)
    else found offset none

abbrev pub is_corrupted : Directory → ℕ → Bool
is_corrupted dir offset =
    (dir.direct offset).reclen == 0
    || ltb (dirblksiz - offset % dirblksiz) (dir.direct offset).reclen

-- One slot; `rest` is what the loop gives from the next slot on.
pub on_entry : Directory → Name → Bool → Bool → Entry → Reply → Reply
on_entry dir name wants_prev sequential empty rest = enoent
on_entry dir name wants_prev sequential del rest = rest
on_entry dir name wants_prev sequential (at offset) rest =
    if leb dir.size offset
    then bad_offset
    else if not (dir.readable (offset - offset % dir.iosize)) || is_corrupted dir offset
    then ejustreturn
    else if bytes_eq (dir.direct offset).name name
    then found_reply dir wants_prev offset
    else if sequential
    then mismatch
    else rest

pub walk : ℕ → Dirhash → Directory → Name → Bool → Bool → ℕ → Reply
walk zero dh dir name wants_prev sequential slot = lost
walk (suc rounds) dh dir name wants_prev sequential slot =
    on_entry dir name wants_prev sequential (entry dh.hash slot)
      (walk rounds dh dir name wants_prev sequential (wrap_incr dh.hlen slot))

abbrev pub retried : Reply → Reply → Reply
retried mismatch again = again
retried (found o p) again = found o p
retried enoent again = enoent
retried ejustreturn again = ejustreturn
retried bad_offset again = bad_offset
retried lost again = lost

-- The search from `slot`, after one for the offset that is expected.
pub from_seqoff : Dirhash → Directory → Name → Bool → ℕ → Option ℕ → Reply
from_seqoff dh dir name wants_prev slot none = walk dh.hlen dh dir name wants_prev false slot
from_seqoff dh dir name wants_prev slot (some q) =
    let again = walk dh.hlen dh dir name wants_prev false slot in
    elim (scan dh.hlen dh.hash dh.hlen (stops_find q) slot) [
      | none ↦ lost
      | some i ↦
          if is_at q (entry dh.hash i)
          then retried (walk dh.hlen dh dir name wants_prev true i) again
          else again
    ]

-- DH_SCOREMAX
abbrev pub dh_scoremax : ℕ
dh_scoremax = 64

-- `dh_seqoff` is set to the offset after the entry.
abbrev pub after_lookup : Dirhash → Directory → Reply → Dirhash
after_lookup dh dir (found o p) = record dh {
  seqoff = some (o + directsiz (length (dir.direct o).name));
}
after_lookup dh dir enoent = dh
after_lookup dh dir ejustreturn = dh
after_lookup dh dir bad_offset = dh
after_lookup dh dir mismatch = dh
after_lookup dh dir lost = dh

pub lookup : (Name → ℕ) → Dirhash → Directory → Name → Bool → Dirhash × Reply
lookup fnv dh dir name wants_prev =
    let scored = record dh {
      score = if ltb dh.score dh_scoremax then dh.score + 1 else dh.score;
    } in
    let reply = from_seqoff dh dir name wants_prev (hash fnv dh name) dh.seqoff in
    (after_lookup scored dir reply, reply)
