-- ===== src/Dirhash/Delete/Delslot.antt =====
-- `ufsdirhash_delslot` of ufsX/ufs/ufs/ufs_dirhash.c as a whole.
use ufson_mac_os.Base.{
  ℕ, ◌+◌, ◌<◌, true, not, Option, none, some, List, ◌≡◌, ◌≢◌, refl, arith, inl, inr, sym, subst,
  ◌∙◌, ◌↔◌, ap,
}
use ufson_mac_os.Base.{◌==◌, Bool-cases, set}
use ufson_mac_os.Base.Count.{count_below_cong, count_below-le}
use ufson_mac_os.Dirhash.{
  Entry, empty, del, at, Dirhash, entry, is_empty, wrap_decr, delslot, at_end, stops_chain,
  with_table,
}
use ufson_mac_os.Dirhash.Probe.{turn, turn-lt, incr-decr, decr-lt, scan-Stops, Stops}
use ufson_mac_os.Dirhash.Valid.{in_use, IsTable, InTable, IsValid, Holds, empty_ahead}
use ufson_mac_os.Dirhash.Delete.{clear-IsTable, InTable-clear, clear_elsewhere, clear_here}
use ufson_mac_os.Dirhash.Delete.Undelete.{empty_lem, at_inj, dels, Cleared, undelete-Cleared}

-- What `delslot` of the slot of offset `o` leaves: the other offsets stand in a valid table.
pub record Deletes (old new : Dirhash) (home : ℕ → ℕ) (o : ℕ) : Type 0 where
  pub valid : IsValid new home
  pub same_size : new.hlen ≡ old.hlen
  pub holds : (p : ℕ) → Holds new p ↔ (Holds old p × (p ≢ o))

abbrev DeletesOption : Dirhash → (ℕ → ℕ) → ℕ → Option Dirhash → Type 0
DeletesOption dh home o none = ⊥
DeletesOption dh home o (some new) = Deletes dh new home o

present :
    {dh : Dirhash} {home : ℕ → ℕ} {o : ℕ} (r : Option Dirhash)
    → DeletesOption dh home o r
    → (new : Dirhash) × (r ≡ some new) × Deletes dh new home o
present none d = absurd d
present (some new) d = (new, refl, d)

stops_at_empty : (e : Entry) → is_empty e ≡ true → stops_chain e ≡ true
stops_at_empty empty h = refl
stops_at_empty del h = cc
stops_at_empty (at o) h = cc

module _ (dh : Dirhash) (home : ℕ → ℕ) (v : IsValid dh home) (s o : ℕ) (low : s < dh.hlen)
    (there : entry dh.hash s ≡ at o) where
  abbrev pub marked : List Entry
  marked = set dh.hash s del

  pub mark : entry marked s ≡ del
  mark = clear_here v.table s del low refl

  pub same_use : (i : ℕ) → in_use marked i ≡ in_use dh.hash i
  same_use i = elim (Bool-cases (i == s)) [
    | inl y ↦
        let same : i ≡ s = ground arith in
        subst (λ x. in_use marked x ≡ in_use dh.hash x) (sym same) (rw (mark, there) refl)
    | inr f ↦ ap (λ e. not (is_empty e)) (clear_elsewhere v.table s del low refl i (ground arith))
  ]

  pub marked-IsTable : IsTable marked dh.hlen dh.hused home
  marked-IsTable =
      clear-IsTable v.table s del low refl dh.hused
        (v.table.counted
          ∙ count_below_cong dh.hlen (in_use dh.hash) (in_use marked) (λ i lt. sym (same_use i)))
        (inl (rw mark refl))

  pub marked_offsets : (p : ℕ) → InTable marked dh.hlen p ↔ (Holds dh p × (p ≢ o))
  marked_offsets p = (
    λ h.
        let back = (InTable-clear v.table s del low refl p).0 h in
        ((back.0, back.1, back.2), other back.0 back.1 back.2 back.3),
    λ h. (InTable-clear v.table s del low refl p).1 (h.0.0, h.0.1, h.0.2, apart h.0.0 h.0.2 h.1),
  )
    where
      other : (i : ℕ) → i < dh.hlen → entry dh.hash i ≡ at p → i ≢ s → p ≢ o
      other i lt e ne same = ne (v.table.once i s p lt low e (there ∙ ap at (sym same)))

      apart : (i : ℕ) → entry dh.hash i ≡ at p → p ≢ o → i ≢ s
      apart i e ne same = ne (at_inj p o (sym (subst (λ x. entry dh.hash x ≡ at p) same e) ∙ there))

  finish :
      (r : Option (List Entry × ℕ))
      → Cleared marked dh.hlen dh.hused home r
      → DeletesOption dh home o (with_table dh r)
  finish none c = c
  finish (some (hash', used')) c = record {
    valid = record { table = c.0; room = omega (arith, v.room, c.2) };
    same_size = refl;
    holds = λ p. (λ h. (marked_offsets p).0 ((c.1 p).0 h), λ h. (c.1 p).1 ((marked_offsets p).1 h));
  }

  kept_marked : Deletes dh (record dh { hash = marked }) home o
  kept_marked = record {
    valid = record { table = marked-IsTable; room = v.room };
    same_size = refl;
    holds = marked_offsets;
  }

  at_end-Deletes :
      (steps : ℕ) (r : Option ℕ)
      → steps < dh.hlen
      → Stops marked dh.hlen stops_chain s steps r
      → DeletesOption dh home o (at_end dh marked r)
  unfolding at_end dels
  at_end-Deletes steps r short z =
      let i : ℕ = turn dh.hlen s steps in
      let inside = turn-lt dh.hlen s steps low short in
      rw (z.result) (elim (Bool-cases (is_empty (entry marked i))) [
        | inr f ↦ rw f kept_marked
        | inl e ↦
            let bare = empty_lem (entry marked i) e in
            let back = incr-decr dh.hlen i inside in
            let few = count_below-le dh.hlen (dels marked) in
            rw e (
              finish _ (
                undelete-Cleared (dh.hlen + 1) dh.hlen dh.hused (wrap_decr dh.hlen i) marked home
                  marked-IsTable (decr-lt dh.hlen i inside) (rw back bare) (omega (arith, few))))
      ])

  -- `ufsdirhash_delslot`
  pub delslot-Deletes : (new : Dirhash) × (delslot dh s ≡ some new) × Deletes dh new home o
  unfolding delslot
  delslot-Deletes =
      let free = empty_ahead marked-IsTable v.room s low in
      let stop =
        scan-Stops marked dh.hlen stops_chain dh.hlen s free.0 low free.1 free.1
          (stops_at_empty _ free.2) in
      present _ (at_end-Deletes stop.0 _ (omega (arith, stop.1, free.1)) stop.2)
