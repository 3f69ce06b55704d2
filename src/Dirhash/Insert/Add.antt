-- ===== src/Dirhash/Insert/Add.antt =====
-- `ufsdirhash_add` of ufsX/ufs/ufs/ufs_dirhash.c as a whole.
use ufson_mac_os.Base.{
  ℕ, ◌+◌, ◌*◌, ◌/◌, ◌≤◌, ◌<◌, Bool, true, false, not, Option, some, ◌≡◌, refl, arith, inl, inr, ◌⊎◌,
  ◌↔◌,
}
use ufson_mac_os.Base.{leb, if◌then◌else◌, Bool-cases}
use ufson_mac_os.Dirhash.{
  Entry, empty, del, at, Dirhash, Name, After, kept, freed, lost, entry, is_empty, is_offset, hash,
  insert_at, stops_add, put, add, adjfree,
}
use ufson_mac_os.Dirhash.Probe.{turn, gap, gap-turn, turn-lt, Stops, scan-Stops}
use ufson_mac_os.Dirhash.Valid.{in_use, IsTable, IsValid, Holds, empty_ahead}
use ufson_mac_os.Dirhash.Insert.{insert-IsTable, InTable-insert}

-- The table of `new` is valid, and holds what that of `old` does and offset `o`.
pub record Adds (old new : Dirhash) (home : ℕ → ℕ) (o : ℕ) : Type 0 where
  pub valid : IsTable new.hash new.hlen new.hused home
  pub same_size : new.hlen ≡ old.hlen
  pub one_more : new.hused ≤ old.hused + 1
  pub holds : (p : ℕ) → Holds new p ↔ ((p ≡ o) ⊎ Holds old p)

stops_at_empty : (e : Entry) → is_empty e ≡ true → stops_add e ≡ true
stops_at_empty empty h = refl
stops_at_empty del h = cc
stops_at_empty (at o) h = cc

of_not_holds : (b : Bool) → not b ≡ true → b ≡ false
of_not_holds true h = cc
of_not_holds false h = refl

of_not_fails : (b : Bool) → not b ≡ false → b ≡ true
of_not_fails true h = refl
of_not_fails false h = cc

more_le : (b : Bool) (n : ℕ) → (if b then n + 1 else n) ≤ n + 1
more_le true n = omega arith
more_le false n = omega arith

offset_in_use : (e : Entry) → is_offset e ≡ true → not (is_empty e) ≡ true
offset_in_use empty h = cc
offset_in_use del h = refl
offset_in_use (at o) h = refl

-- What `add` leaves.
abbrev pub AddOutcome : Dirhash → (ℕ → ℕ) → ℕ → After → Type 0
AddOutcome dh home o lost = ⊥
AddOutcome dh home o freed = dh.hlen * 3 / 4 ≤ dh.hused
AddOutcome dh home o (kept new) =
    (dh.hused < dh.hlen * 3 / 4)
    × IsValid new home
    × ((p : ℕ) → Holds new p ↔ ((p ≡ o) ⊎ Holds dh p))

module _ (fnv : Name → ℕ) (dh : Dirhash) (home : ℕ → ℕ) (name : Name) (o : ℕ) (v : IsValid dh home)
    (fresh : ¬ Holds dh o) (named : home o ≡ hash fnv dh name) where
  insert_at-Adds :
      (steps : ℕ) (r : Option ℕ)
      → steps < dh.hlen
      → Stops dh.hash dh.hlen stops_add (home o) steps r
      → (new : Dirhash) × (insert_at dh o r ≡ some new) × Adds dh new home o
  unfolding insert_at
  insert_at-Adds steps r short s =
      let slot : ℕ = turn dh.hlen (home o) steps in
      let low = turn-lt dh.hlen (home o) steps (v.table.homes o) short in
      let distance = gap-turn dh.hlen (home o) steps (v.table.homes o) short in
      let taken = of_not_holds (is_offset (entry dh.hash slot)) s.stopped in
      let path : (j : ℕ)
          → j < gap dh.hlen (home o) slot
          → in_use dh.hash (turn dh.hlen (home o) j) ≡ true =
        λ j lt. offset_in_use _ (of_not_fails _ (s.before j (omega (arith, distance)))) in
      rw (s.result) (
        _,
        refl,
        record {
          valid = insert-IsTable v.table slot o low fresh taken path;
          same_size = refl;
          one_more = more_le (is_empty (entry dh.hash slot)) dh.hused;
          holds = InTable-insert v.table slot o low fresh taken path;
        },
      )

  pub put-Adds : (new : Dirhash) × (put fnv dh name o ≡ some new) × Adds dh new home o
  unfolding put
  put-Adds =
      let free = empty_ahead v.table v.room (home o) (v.table.homes o) in
      let stop =
        scan-Stops dh.hash dh.hlen stops_add dh.hlen (home o) free.0 (v.table.homes o) free.1 free.1
          (stops_at_empty _ free.2) in
      rw (← named) (insert_at-Adds stop.0 _ (omega (arith, stop.1, free.1)) stop.2)

  -- ufsdirhash_add of an offset that a valid hash does not hold gives the hash up if three quarters
  -- of its slots are in use, and otherwise ends and leaves a valid hash of the offsets and the new
  -- one: the set of offsets gains that one.
  pub add-Outcome : AddOutcome dh home o (add fnv dh name o)
  unfolding add adjfree
  add-Outcome = elim (Bool-cases (leb (dh.hlen * 3 / 4) dh.hused)) [
    | inl full ↦ rw full (ground arith)
    | inr roomy ↦
        let filled = put-Adds in
        rw (roomy, filled.1)
          (
            ground arith,
            record {
              table = filled.2.valid;
              room = omega (arith, filled.2.one_more, filled.2.same_size, few roomy);
            },
            filled.2.holds,
          )
  ]
    where
      few : leb (dh.hlen * 3 / 4) dh.hused ≡ false → dh.hused < dh.hlen * 3 / 4
      few roomy = ground arith
