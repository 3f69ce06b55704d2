-- ===== src/Dirhash/Find.antt =====
-- `ufsdirhash_findslot`, `ufsdirhash_remove` and `ufsdirhash_move` of ufsX/ufs/ufs/ufs_dirhash.c.
use ufson_mac_os.Base.{
  ℕ, ◌+◌, ◌≤◌, ◌<◌, Bool, true, false, not, some, ◌≡◌, ◌≢◌, refl, arith, inl, inr, sym, subst, ◌∙◌,
  ◌⊎◌, ◌↔◌, ap,
}
use ufson_mac_os.Base.{◌==◌, if◌then◌else◌, Bool-cases, set, set-set}
use ufson_mac_os.Dirhash.{
  Entry, empty, del, at, Dirhash, Name, kept, entry, is_empty, is_offset, is_at, hash, findslot,
  stops_find, remove, move, adjfree, scan,
}
use ufson_mac_os.Dirhash.Probe.{turn, gap, turn-gap, turn-lt, Stops, scan-Stops}
use ufson_mac_os.Dirhash.Valid.{in_use, IsTable, InTable, IsValid, Holds, rehome}
use ufson_mac_os.Dirhash.Insert.{insert-IsTable, InTable-insert}
use ufson_mac_os.Dirhash.Delete.Delslot.{
  Deletes, delslot-Deletes, marked, mark, same_use, marked-IsTable, marked_offsets,
}

pub is_at_lem : (o : ℕ) (e : Entry) → is_at o e ≡ true → e ≡ at o
is_at_lem o empty h = cc
is_at_lem o del h = cc
is_at_lem o (at p) h = let same : p ≡ o = ground arith in ap at same

is_at_refl : (o : ℕ) → is_at o (at o) ≡ true
is_at_refl o = ground arith

stops_cases : (o : ℕ) (e : Entry) → stops_find o e ≡ true → (e ≡ at o) ⊎ (is_empty e ≡ true)
stops_cases o empty h = inr refl
stops_cases o del h = cc
stops_cases o (at p) h = let same : p ≡ o = ground arith in inl (ap at same)

stops_at : (o : ℕ) → stops_find o (at o) ≡ true
stops_at o = ground arith

stops_at_empty : (o : ℕ) (e : Entry) → is_empty e ≡ true → stops_find o e ≡ true
stops_at_empty o empty h = refl
stops_at_empty o del h = cc
stops_at_empty o (at p) h = cc

-- A loop from the home of an offset that stands in the table stops at its slot, if it stops at no
-- other offset on the way.
module _ (dh : Dirhash) (home : ℕ → ℕ) (v : IsValid dh home) (o s : ℕ) (low : s < dh.hlen)
    (e : entry dh.hash s ≡ at o) (stop : Entry → Bool) (stops : stop (at o) ≡ true)
    (only : (t : ℕ)
      → t < dh.hlen
      → stop (entry dh.hash t) ≡ true
      → (entry dh.hash t ≡ at o) ⊎ (is_empty (entry dh.hash t) ≡ true)) where
  whole : (gap dh.hlen (home o) s < dh.hlen) × (turn dh.hlen (home o) (gap dh.hlen (home o) s) ≡ s)
  whole = turn-gap dh.hlen (home o) s (v.table.homes o) low

  stop_lem :
      (steps : ℕ) × (steps ≤ gap dh.hlen (home o) s)
      × Stops dh.hash dh.hlen stop (home o) steps (scan dh.hlen dh.hash dh.hlen stop (home o))
  stop_lem =
      scan-Stops dh.hash dh.hlen stop dh.hlen (home o) (gap dh.hlen (home o) s) (v.table.homes o)
        whole.0 whole.0 (rw (whole.1, e) stops)

  inside : turn dh.hlen (home o) stop_lem.0 < dh.hlen
  inside =
      turn-lt dh.hlen (home o) stop_lem.0 (v.table.homes o) (omega (arith, stop_lem.1, whole.0))

  by_entry :
      (entry dh.hash (turn dh.hlen (home o) stop_lem.0) ≡ at o)
        ⊎ (is_empty (entry dh.hash (turn dh.hlen (home o) stop_lem.0)) ≡ true)
      → scan dh.hlen dh.hash dh.hlen stop (home o) ≡ some s
  by_entry (inl found) = stop_lem.2.result ∙ ap some (v.table.once _ s o inside low found e)
  by_entry (inr bare) = elim (Bool-cases (stop_lem.0 == gap dh.hlen (home o) s)) [
    | inl y ↦
        let last : stop_lem.0 ≡ gap dh.hlen (home o) s = ground arith in
        stop_lem.2.result ∙ ap some (ap (turn dh.hlen (home o)) last ∙ whole.1)
    | inr f ↦
        let filled = v.table.chained s o stop_lem.0 low e (let le = stop_lem.1 in ground arith) in
        absurd (let g = ap not bare in cc)
  ]

  pub scan_there : scan dh.hlen dh.hash dh.hlen stop (home o) ≡ some s
  scan_there = by_entry (only _ inside stop_lem.2.stopped)

module _ (fnv : Name → ℕ) (dh : Dirhash) (home : ℕ → ℕ) (v : IsValid dh home) (name : Name) (o : ℕ)
    (named : home o ≡ hash fnv dh name) where
  -- `ufsdirhash_findslot` finds the slot of an offset that stands in the table.
  pub findslot_finds :
      (s : ℕ) → s < dh.hlen → entry dh.hash s ≡ at o → findslot fnv dh name o ≡ some s
  unfolding findslot
  findslot_finds s low e =
      rw (sym named, findslot)
        (rw
          (scan_there dh home v o s low e (stops_find o) (stops_at o)
            (λ t lt hit. stops_cases o _ hit))
          (rw (e, is_at_refl o) refl))

  -- ufsdirhash_remove of an entry that a valid hash holds ends, and leaves a valid hash, which has
  -- an empty slot, of exactly the other offsets: the set of offsets loses that one.
  pub remove-Deletes :
      Holds dh o → (new : Dirhash) × (remove fnv dh name o ≡ kept new) × Deletes dh new home o
  unfolding remove adjfree
  remove-Deletes (s, low, e) =
      let gone = delslot-Deletes dh home v s o low e in
      rw (findslot_finds s low e, remove)
        (rw (gone.1) (
          _,
          refl,
          record {
            valid = record { table = gone.2.valid.table; room = gone.2.valid.room };
            same_size = gone.2.same_size;
            holds = gone.2.holds;
          },
        ))

-- What `ufsdirhash_move` leaves: the entry at `o` now stands at `n`.
pub record Moves (old new : Dirhash) (home' : ℕ → ℕ) (o n : ℕ) : Type 0 where
  pub valid : IsValid new home'
  pub holds : (p : ℕ) → Holds new p ↔ ((p ≡ n) ⊎ (Holds old p × (p ≢ o)))

module _ (fnv : Name → ℕ) (dh : Dirhash) (home home' : ℕ → ℕ) (v : IsValid dh home) (name : Name)
    (o n : ℕ) (named : home o ≡ hash fnv dh name) (renamed : home' n ≡ hash fnv dh name)
    (fresh : ¬ Holds dh n) (homes' : (p : ℕ) → home' p < dh.hlen)
    (others : (p : ℕ) → Holds dh p → home' p ≡ home p) where
  -- Slot `s` of offset `o` gets offset `n`.
  moved :
      (s : ℕ)
      → s < dh.hlen
      → entry dh.hash s ≡ at o
      → Moves dh (record dh { hash = set dh.hash s (at n) }) home' o n
  moved s low e = record {
    valid = record {
      table =
          subst (λ h. IsTable h dh.hlen dh.hused home') (set-set dh.hash s del (at n))
            (subst (λ u. IsTable (set (marked dh home v s o low e) s (at n)) dh.hlen u home')
              same_used (insert-IsTable t s n low absent taken path));
      room = v.room;
    };
    holds = λ p.
        subst (λ h. InTable h dh.hlen p ↔ ((p ≡ n) ⊎ (Holds dh p × (p ≢ o))))
          (set-set dh.hash s del (at n)) (two p);
  }
    where
      offsets : (p : ℕ) → InTable (set dh.hash s del) dh.hlen p ↔ (Holds dh p × (p ≢ o))
      offsets = marked_offsets dh home v s o low e

      m : entry (set dh.hash s del) s ≡ del
      m = mark dh home v s o low e

      t : IsTable (set dh.hash s del) dh.hlen dh.hused home'
      t =
          rehome home' (marked-IsTable dh home v s o low e) homes'
            (λ p held. others p ((offsets p).0 held).0)

      absent : ¬ InTable (set dh.hash s del) dh.hlen n
      absent held = fresh ((offsets n).0 held).0

      taken : is_offset (entry (set dh.hash s del) s) ≡ false
      taken = rw m refl

      same_used :
          (if is_empty (entry (set dh.hash s del) s) then dh.hused + 1 else dh.hused) ≡ dh.hused
      same_used = rw m refl

      path :
          (j : ℕ)
          → j < gap dh.hlen (home' n) s
          → in_use (set dh.hash s del) (turn dh.hlen (home' n) j) ≡ true
      path j lt =
          let same : home' n ≡ home o = renamed ∙ sym named in
          same_use dh home v s o low e (turn dh.hlen (home' n) j)
          ∙ subst (λ h. in_use dh.hash (turn dh.hlen h j) ≡ true) (sym same)
              (v.table.chained s o j low e (subst (λ h. j < gap dh.hlen h s) same lt))

      two :
          (p : ℕ)
          → InTable (set (set dh.hash s del) s (at n)) dh.hlen p
            ↔ ((p ≡ n) ⊎ (Holds dh p × (p ≢ o)))
      two p =
          let one = InTable-insert t s n low absent taken path p in
          (
            λ h. elim (one.0 h) [ inl x ↦ inl x | inr y ↦ inr ((offsets p).0 y) ],
            λ h. elim h [ inl x ↦ one.1 (inl x) | inr y ↦ one.1 (inr ((offsets p).1 y)) ],
          )

  -- ufsdirhash_move of an entry that a valid hash holds to an offset that it does not hold ends,
  -- and leaves a hash that is valid for the names at the new offsets, and holds the new offset in
  -- place of the old one.
  pub move-Moves :
      Holds dh o → (new : Dirhash) × (move fnv dh name o n ≡ kept new) × Moves dh new home' o n
  unfolding move
  move-Moves (s, low, e) =
      let found = findslot_finds fnv dh home v name o named s low e in
      rw (found, move) (_, refl, moved s low e)
