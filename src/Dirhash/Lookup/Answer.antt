-- ===== src/Dirhash/Lookup/Answer.antt =====
-- What `ufsdirhash_lookup` of ufsX/ufs/ufs/ufs_dirhash.c answers.
use ufson_mac_os.Base.{
  ℕ, zero, suc, ◌%◌, ◌<◌, Bool, true, false, Option, none, some, ◌≡◌, ◌≢◌, refl, arith, inl, inr,
  sym, subst, ◌∙◌, ◌⊎◌, ap,
}
use ufson_mac_os.Base.{◌==◌, if◌then◌else◌, Bool-cases}
use native.Mathlib.Nat.{mod-lt}
use ufson_mac_os.Dirhash.{
  Entry, empty, del, at, Dirhash, Name, entry, is_empty, is_at, scan, stops_find, hash, dirblksiz,
}
use ufson_mac_os.Dirhash.Probe.{turn, turn-lt, scan-Stops}
use ufson_mac_os.Dirhash.Valid.{IsValid, Holds, empty_ahead, entry_low}
use ufson_mac_os.Dirhash.Find.{scan_there, is_at_lem}
use ufson_mac_os.Dirhash.Block.{Directory, Prev, prev, no_prev, endless, getprev}
use ufson_mac_os.Dirhash.Block.Entries.{PrevOf, getprev-PrevOf}
use ufson_mac_os.Dirhash.Lookup.{
  Reply, found, ejustreturn, enoent, mismatch, bytes_eq, found_reply, walk, from_seqoff, retried,
  lookup, with_prev,
}
use ufson_mac_os.Dirhash.Lookup.Names.{bytes_eq_sound, bytes_eq_refl}
use ufson_mac_os.Dirhash.Lookup.Walk.{
  IsSound, stops_lookup, verdict, walk-verdict, on_entry_sequential,
}

-- The table holds the entries of the directory, which are sound and have different names.
pub record Describes (fnv : Name → ℕ) (dh : Dirhash) (dir : Directory) : Type 0 where
  pub valid : IsValid dh (λ o. hash fnv dh (dir.direct o).name)
  pub sound : (o : ℕ) → Holds dh o → IsSound dir o
  pub distinct :
      (o p : ℕ) → Holds dh o → Holds dh p → (dir.direct o).name ≡ (dir.direct p).name → o ≡ p

some_inj : (a b : ℕ) → some a ≡ some b → a ≡ b
some_inj a b e = cc

retried_found :
    (dir : Directory) (wants : Bool) (o : ℕ) (again : Reply)
    → retried (found_reply dir wants o) again ≡ found_reply dir wants o
unfolding found_reply
retried_found dir true o again = elim (Bool-cases (o % dirblksiz == 0)) [
  | inl t ↦ rw t refl
  | inr f ↦ rw f (by_prev (getprev dir o))
]
  where
    by_prev : (r : Prev) → retried (with_prev o r) again ≡ with_prev o r
    by_prev (prev p) = refl
    by_prev no_prev = refl
    by_prev endless = refl
retried_found dir false o again = refl

-- No entry has the name.
abbrev pub Absent : Dirhash → Directory → Name → Type 0
Absent dh dir name = (o : ℕ) → Holds dh o → (dir.direct o).name ≢ name

-- What is returned for the entry at `o`: its offset, and, if it is asked for, an offset before: its own
-- at the start of a block, else that of the previous entry; EJUSTRETURN if there is none.
abbrev pub Found : Directory → Bool → ℕ → Reply → Type 0
Found dir wants o r =
    ((wants ≡ false) × (r ≡ found o none))
    ⊎ ((wants ≡ true) × (o % dirblksiz ≡ 0) × (r ≡ found o (some o)))
    ⊎ ((wants ≡ true)
        × (o % dirblksiz ≢ 0)
        × ((p : ℕ) × PrevOf dir o (prev p) × (r ≡ found o (some p))))
    ⊎ ((wants ≡ true) × (o % dirblksiz ≢ 0) × PrevOf dir o no_prev × (r ≡ ejustreturn))

found_reply-Found :
    (dir : Directory) (wants : Bool) (o : ℕ) → Found dir wants o (found_reply dir wants o)
unfolding found_reply
found_reply-Found dir false o = inl (refl, refl)
found_reply-Found dir true o = elim (Bool-cases (o % dirblksiz == 0)) [
  | inl t ↦ let start : o % dirblksiz ≡ 0 = ground arith in rw t (inr (inl (refl, start, refl)))
  | inr f ↦
      let inner : o % dirblksiz ≢ 0 = ground arith in
      rw f (by_prev inner (getprev dir o) (getprev-PrevOf dir o))
]
  where
    by_prev : o % dirblksiz ≢ 0 → (r : Prev) → PrevOf dir o r → Found dir true o (with_prev o r)
    by_prev inner (prev p) is = inr (inr (inl (refl, inner, (p, is, refl))))
    by_prev inner no_prev is = inr (inr (inr (refl, inner, is, refl)))
    by_prev inner endless is = absurd is

-- An entry with the name is found, or there is none.
abbrev pub Answers : Dirhash → Directory → Name → Bool → Reply → Type 0
Answers dh dir name wants r =
    ((o : ℕ) × Holds dh o × ((dir.direct o).name ≡ name) × Found dir wants o r)
    ⊎ (Absent dh dir name × (r ≡ enoent))

module _ (fnv : Name → ℕ) (dh : Dirhash) (dir : Directory) (name : Name) (wants : Bool)
    (d : Describes fnv dh dir) where
  abbrev home : ℕ → ℕ
  home o = hash fnv dh (dir.direct o).name

  low_slot : (s o : ℕ) → entry dh.hash s ≡ at o → s < dh.hlen
  low_slot s o e = subst (λ n. s < n) d.valid.table.sized (entry_low dh.hash s o e)

  slot-IsSound : (s o : ℕ) → entry dh.hash s ≡ at o → IsSound dir o
  slot-IsSound s o e = d.sound o (s, low_slot s o e, e)

  -- An entry with the name stops the search, and no other.
  only :
      (o s : ℕ)
      → s < dh.hlen
      → entry dh.hash s ≡ at o
      → (dir.direct o).name ≡ name
      → (t : ℕ) → t < dh.hlen
      → stops_lookup dir name (entry dh.hash t) ≡ true
      → (entry dh.hash t ≡ at o) ⊎ (is_empty (entry dh.hash t) ≡ true)
  only o s low e named t short hit = by_entry (entry dh.hash t) refl hit
    where
      by_entry :
          (x : Entry)
          → entry dh.hash t ≡ x
          → stops_lookup dir name x ≡ true
          → (x ≡ at o) ⊎ (is_empty x ≡ true)
      by_entry empty there hit = inr refl
      by_entry del there hit = cc
      by_entry (at p) there hit =
          let same = bytes_eq_sound (dir.direct p).name name hit in
          inl (ap at (d.distinct p o (t, short, there) (s, low, e) (same ∙ sym named)))

  scan_name :
      (o s : ℕ)
      → s < dh.hlen
      → entry dh.hash s ≡ at o
      → (dir.direct o).name ≡ name
      → scan dh.hlen dh.hash dh.hlen (stops_lookup dir name) (hash fnv dh name) ≡ some s
  scan_name o s low e named =
      let stops =
        subst (λ n. bytes_eq (dir.direct o).name n ≡ true) named
          (bytes_eq_refl (dir.direct o).name) in
      subst (λ h. scan dh.hlen dh.hash dh.hlen (stops_lookup dir name) h ≡ some s)
        (ap (hash fnv dh) named)
        (scan_there dh home d.valid o s low e (stops_lookup dir name) stops (only o s low e named))

  walk_found :
      (o s : ℕ)
      → s < dh.hlen
      → entry dh.hash s ≡ at o
      → (dir.direct o).name ≡ name
      → walk dh.hlen dh dir name wants false (hash fnv dh name) ≡ found_reply dir wants o
  walk_found o s low e named =
      walk-verdict dh dir name wants slot-IsSound dh.hlen (hash fnv dh name) s
        (scan_name o s low e named)
      ∙ ap (verdict dir wants) e

  start_low : hash fnv dh name < dh.hlen
  unfolding hash
  start_low = let low = d.valid.room in mod-lt (fnv name) (omega arith)

  stop_somewhere :
      (stop : Entry → Bool)
      → ((e : Entry) → is_empty e ≡ true → stop e ≡ true)
      → (t : ℕ) × (t < dh.hlen)
        × (scan dh.hlen dh.hash dh.hlen stop (hash fnv dh name) ≡ some t)
        × (stop (entry dh.hash t) ≡ true)
  stop_somewhere stop stops =
      let free = empty_ahead d.valid.table d.valid.room (hash fnv dh name) start_low in
      let z =
        scan-Stops dh.hash dh.hlen stop dh.hlen (hash fnv dh name) free.0 start_low free.1 free.1
          (stops _ free.2) in
      (
        turn dh.hlen (hash fnv dh name) z.0,
        turn-lt dh.hlen (hash fnv dh name) z.0 start_low (omega (arith, z.1, free.1)),
        z.2.result,
        z.2.stopped,
      )

  stops_empty : (e : Entry) → is_empty e ≡ true → stops_lookup dir name e ≡ true
  stops_empty empty h = refl
  stops_empty del h = cc
  stops_empty (at o) h = cc

  walk-Answers : Answers dh dir name wants (walk dh.hlen dh dir name wants false (hash fnv dh name))
  walk-Answers =
      let z = stop_somewhere (stops_lookup dir name) stops_empty in
      let answer = walk-verdict dh dir name wants slot-IsSound dh.hlen (hash fnv dh name) z.0 z.2 in
      by_entry z.0 z.1 z.2 (entry dh.hash z.0) refl z.3 answer
    where
      by_entry :
          (t : ℕ)
          → t < dh.hlen
          → scan dh.hlen dh.hash dh.hlen (stops_lookup dir name) (hash fnv dh name) ≡ some t
          → (e : Entry) → entry dh.hash t ≡ e
          → stops_lookup dir name e ≡ true
          → walk dh.hlen dh dir name wants false (hash fnv dh name)
            ≡ verdict dir wants (entry dh.hash t)
          → Answers dh dir name wants (walk dh.hlen dh dir name wants false (hash fnv dh name))
      by_entry t low stop empty there hit answer = inr (
        λ o (s, lt, e) named.
            let again = sym stop ∙ scan_name o s lt e named in
            let same : t ≡ s = some_inj t s again in
            absurd (let clash = sym there ∙ ap (entry dh.hash) same ∙ e in cc),
        answer ∙ ap (verdict dir wants) there,
      )
      by_entry t low stop del there hit answer = cc
      by_entry t low stop (at o) there hit answer = inl (
        o,
        (t, low, there),
        bytes_eq_sound (dir.direct o).name name hit,
        subst (Found dir wants o) (sym (answer ∙ ap (verdict dir wants) there))
            (found_reply-Found dir wants o),
      )

  first_look :
      (q i : ℕ)
      → entry dh.hash i ≡ at q
      → (rounds : ℕ) → 0 < rounds
      → walk rounds dh dir name wants true i
        ≡ (if bytes_eq (dir.direct q).name name then found_reply dir wants q else mismatch)
  unfolding walk
  first_look q i there zero pos = absurd (omega arith)
  first_look q i there (suc rounds) pos = rw there (
      on_entry_sequential dh dir name wants slot-IsSound q _
        (d.sound q (i, low_slot i q there, there)))

  -- The search for the expected offset changes nothing.
  sequential_lem :
      (q i : ℕ)
      → i < dh.hlen
      → entry dh.hash i ≡ at q
      → retried
          (walk dh.hlen dh dir name wants true i)
          (walk dh.hlen dh dir name wants false (hash fnv dh name))
        ≡ walk dh.hlen dh dir name wants false (hash fnv dh name)
  sequential_lem q i low there =
      rw (first_look q i there dh.hlen (omega arith))
        (elim (Bool-cases (bytes_eq (dir.direct q).name name)) [
          | inr f ↦ rw f refl
          | inl t ↦
              let same = bytes_eq_sound (dir.direct q).name name t in
              rw t (retried_found dir wants q _ ∙ sym (walk_found q i low there same))
        ])

  from_seqoff_lem :
      (seq : Option ℕ)
      → from_seqoff dh dir name wants (hash fnv dh name) seq
        ≡ walk dh.hlen dh dir name wants false (hash fnv dh name)
  unfolding from_seqoff
  from_seqoff_lem none = refl
  from_seqoff_lem (some q) =
      let z = stop_somewhere (stops_find q) (stops q) in
      rw (z.2, from_seqoff)
        (elim (Bool-cases (is_at q (entry dh.hash z.0))) [
          | inr f ↦ rw f refl
          | inl t ↦ rw t (sequential_lem q z.0 z.1 (is_at_lem q (entry dh.hash z.0) t))
        ])
    where
      stops : (q : ℕ) (e : Entry) → is_empty e ≡ true → stops_find q e ≡ true
      stops q empty h = refl
      stops q del h = cc
      stops q (at o) h = cc

  -- If the hash is valid for the names of the entries that it holds, which can be read, are not
  -- corrupted and have different names, then ufsdirhash_lookup, whatever the expected offset is,
  -- returns ENOENT and no entry has the name; or an entry has it, and its offset is returned, with
  -- an offset before if that is asked for: its own at the start of a block, and elsewhere that of
  -- the entry before it in the block, or EJUSTRETURN instead if there is no entry before it.
  pub lookup-Answers : Answers dh dir name wants (lookup fnv dh dir name wants).1
  unfolding lookup
  lookup-Answers = subst (Answers dh dir name wants) (sym (from_seqoff_lem dh.seqoff)) walk-Answers
