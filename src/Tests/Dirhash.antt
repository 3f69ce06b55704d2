-- ===== src/Tests/Dirhash.antt =====
-- The hash of a directory with the entries "." and "..", and one that holds the first of them.
use native.Mathlib.Nat.{mod-lt}
use mathlib.Core.Path.{fun_ext}
use ufson_mac_os.Base.{
  ℕ, ◌+◌, ◌*◌, ◌/◌, ◌%◌, ◌≤◌, ◌<◌, ◌≡◌, ◌≢◌, inl, inr, refl, sym, subst, ap, ◌∙◌, true, some, [],
  ◌∷◌, arith,
}
use ufson_mac_os.Base.{leb, false, ◌==◌, if◌then◌else◌, get_or}
use ufson_mac_os.Base.Int.{negsuc}
use ufson_mac_os.Dirhash.{
  Dirhash, Name, kept, hash, add, remove, move, adjfree, dirblksiz, shift_words, diralign,
}
use ufson_mac_os.Dirhash.Block.{Directory, Direct, getprev}
use ufson_mac_os.Dirhash.Block.Entries.{PrevOf, Leads, getprev-PrevOf}
use ufson_mac_os.Dirhash.Build.{blank, build, Setting, bare, request, arrays_for}
use ufson_mac_os.Dirhash.Recycle.{Memory}
use ufson_mac_os.Dirhash.{directsiz}
use ufson_mac_os.Dirhash.Build.Blank.{blank-IsValid, blank-IsIndexed}
use ufson_mac_os.Dirhash.Build.Whole.{Builds, build-Builds}
use ufson_mac_os.Dirhash.Delete.Delslot.{Deletes}
use ufson_mac_os.Dirhash.Find.{Moves, remove-Deletes, move-Moves}
use ufson_mac_os.Dirhash.Insert.Add.{Adds, AddOutcome, put-Adds, add-Outcome}
use ufson_mac_os.Dirhash.Lookup.{lookup}
use ufson_mac_os.Dirhash.Lookup.Answer.{Answers, lookup-Answers}
use ufson_mac_os.Dirhash.Lookup.Walk.{IsSound}
use ufson_mac_os.Dirhash.Valid.{IsValid, Holds}
use ufson_mac_os.Dirhash.Words.{find_block, enduseful, useful_blocks, dirtrunc, howmany, is_unused}
use ufson_mac_os.Dirhash.Words.Indexed.{IsIndexed}
use ufson_mac_os.Dirhash.Words.Refile.{adjfree-IsIndexed}
use ufson_mac_os.Dirhash.Words.Roomy.{Fits, find_block-Fits}
use ufson_mac_os.Dirhash.Words.Truncate.{Truncates, dirtrunc-enduseful}

abbrev fnv : Name → ℕ
fnv [] = 7
fnv (c ∷ cs) = c + 31 * fnv cs

abbrev dot : Name
dot = 46 ∷ []

abbrev entries : ℕ → Direct
entries o =
    if o == 0
    then record { ino = 2; reclen = 12; name = dot }
    else if o == 12
    then record { ino = 2; reclen = 500; name = 46 ∷ 46 ∷ [] }
    else record { ino = 0; reclen = 0; name = [] }

abbrev dir : Directory
dir = record { size = 512; iosize = 4096; readable = λ o. true; direct = entries }

abbrev homes : ℕ → ℕ
homes o = fnv (entries o).name % 256

empty_hash : IsValid (blank 1 1) homes × ((o : ℕ) → ¬ Holds (blank 1 1) o)
empty_hash =
    blank-IsValid 1 1 (omega arith) homes (λ o. mod-lt (fnv (entries o).name) (omega arith))

named : homes 0 ≡ hash fnv (blank 1 1) dot
unfolding hash blank
named = refl

slots : (blank 1 1).hlen ≡ 256
unfolding blank
slots = refl

none_used : (blank 1 1).hused ≡ 0
unfolding blank
none_used = refl

add-Outcome_example : AddOutcome (blank 1 1) homes 0 (add fnv (blank 1 1) dot 0)
add-Outcome_example = add-Outcome fnv (blank 1 1) homes dot 0 empty_hash.0 (empty_hash.1 0) named

-- The hash with the entry ".".
abbrev with_dot : Dirhash
with_dot = (put-Adds fnv (blank 1 1) homes dot 0 empty_hash.0 (empty_hash.1 0) named).0

Adds-dot : Adds (blank 1 1) with_dot homes 0
Adds-dot = (put-Adds fnv (blank 1 1) homes dot 0 empty_hash.0 (empty_hash.1 0) named).2

with_dot-IsValid : IsValid with_dot homes
with_dot-IsValid = record {
  table = Adds-dot.valid;
  room =
      (let few = Adds-dot.one_more in
        let same = Adds-dot.same_size in omega (arith, slots, none_used));
}

Holds-dot : Holds with_dot 0
Holds-dot = (Adds-dot.holds 0).1 (inl refl)

only_dot : (p : ℕ) → Holds with_dot p → p ≡ 0
only_dot p held = elim ((Adds-dot.holds p).0 held) [
  | inl same ↦ same
  | inr old ↦ absurd (empty_hash.1 p old)
]

hash_lem : (o : ℕ) → homes o ≡ hash fnv with_dot (entries o).name
unfolding hash
hash_lem o = ap (λ l. fnv (entries o).name % l) (sym (Adds-dot.same_size ∙ slots))

remove-Deletes_example :
    (new : Dirhash) × (remove fnv with_dot dot 0 ≡ kept new) × Deletes with_dot new homes 0
remove-Deletes_example =
    remove-Deletes fnv with_dot homes with_dot-IsValid dot 0 (hash_lem 0) Holds-dot

-- The entry "." moves to offset 24.
abbrev homes' : ℕ → ℕ
homes' o = if o == 24 then homes 0 else homes o

move-Moves_example :
    (new : Dirhash) × (move fnv with_dot dot 0 24 ≡ kept new) × Moves with_dot new homes' 0 24
move-Moves_example =
    move-Moves fnv with_dot homes homes' with_dot-IsValid dot 0 24 (hash_lem 0) (hash_lem 0)
      (λ held. absurd (let e = only_dot 24 held in omega arith)) homes'_low
      (λ p held. same_home p (only_dot p held)) Holds-dot
  where
    homes_low : (p : ℕ) → homes p < 256
    homes_low p = mod-lt (fnv (entries p).name) (omega arith)

    homes'_low : (p : ℕ) → homes' p < with_dot.hlen
    homes'_low p =
        let size = Adds-dot.same_size ∙ slots in
        let low = homes_low p in let first = homes_low 0 in ground arith

    same_home : (p : ℕ) → p ≡ 0 → homes' p ≡ homes p
    same_home p e = ground arith

dot-IsSound : IsSound dir 0
dot-IsSound = record { inside = refl; block = refl; fits = refl }

lookup-Answers_example : Answers with_dot dir dot true (lookup fnv with_dot dir dot true).1
lookup-Answers_example = lookup-Answers fnv with_dot dir dot true (record {
  valid = subst (IsValid with_dot) (fun_ext hash_lem) with_dot-IsValid;
  sound = λ o held. subst (IsSound dir) (sym (only_dot o held)) dot-IsSound;
  distinct = λ o p ho hp named. only_dot o ho ∙ sym (only_dot p hp);
})

indexed : IsIndexed (blank 1 1)
indexed = blank-IsIndexed 1 1 (omega arith) (omega arith)

blocks : (blank 1 1).dirblks ≡ 1
unfolding blank
blocks = refl

adjfree-IsIndexed_example :
    IsIndexed (adjfree (blank 1 1) 12 (negsuc 11))
    × ((j : ℕ)
        → get_or (adjfree (blank 1 1) 12 (negsuc 11)).blkfree j 0 ≡ (
            if j == 12 / dirblksiz
            then shift_words (get_or (blank 1 1).blkfree (12 / dirblksiz) 0) (negsuc 11)
            else get_or (blank 1 1).blkfree j 0))
adjfree-IsIndexed_example =
    adjfree-IsIndexed (blank 1 1) 12 (negsuc 11) indexed (omega (arith, blocks))

find_block-Fits_example : Fits (blank 1 1) (howmany 20 diralign) (find_block (blank 1 1) 20)
find_block-Fits_example = find_block-Fits (blank 1 1) 20 indexed

all_free : enduseful (blank 1 1) ≡ some 0
unfolding blank enduseful useful_blocks
all_free = refl

dirtrunc-enduseful_example :
    (block : ℕ) × (block ≤ (blank 1 1).dirblks)
    × (0 ≡ block * dirblksiz)
    × ((j : ℕ) → block ≤ j → j < (blank 1 1).dirblks → is_unused (blank 1 1).blkfree j ≡ true)
    × Truncates (blank 1 1) block (dirtrunc (blank 1 1) 0)
dirtrunc-enduseful_example = dirtrunc-enduseful (blank 1 1) indexed 0 all_free

getprev-PrevOf_example : PrevOf dir 12 (getprev dir 12)
getprev-PrevOf_example = getprev-PrevOf dir 12

-- A directory of five blocks, with the entries "." and "..".
abbrev five_blocks : Directory
five_blocks = record {
  size = 2560;
  iosize = 4096;
  readable = λ o. true;
  direct = λ o. if leb 512 o then record { ino = 0; reclen = 512; name = [] } else entries o;
}

abbrev setting : Setting
setting = record {
  maxmem = 2097152;
  minsize = 2560;
  oldfmt = false;
  effnlink = 2;
  sizeof_dh = 200;
  created = bare;
  hash_memory = true;
  blkfree_memory = true;
  blkalloc = λ i. true;
}

-- Another hash on the list.
abbrev memory : Memory
memory = record {
  used = 2096000;
  hashes = record { score = 1; memreq = 3000; is_free = true } ∷ [];
}

wide :
    (p : ℕ)
    → Leads five_blocks 0 p
    → p < 2560
    → (five_blocks.direct p).ino ≢ 0
    → 12 ≤ (five_blocks.direct p).reclen
wide p lead low live = ground arith

small : request setting 2560 + 2096000 < 0x80000000
unfolding request arrays_for directsiz
small = omega arith

build-Builds_example :
    Builds fnv five_blocks
      (omega arith)
      refl
      wide
      setting
      memory
      (build fnv setting memory five_blocks)
build-Builds_example =
    build-Builds fnv five_blocks (omega arith) refl wide setting memory (omega arith) small
