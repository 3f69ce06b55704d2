-- ===== src/Dirhash/Delete/Undelete.antt =====
-- The loop of `ufsdirhash_delslot` of ufsX/ufs/ufs/ufs_dirhash.c back over the deleted slots.
use ufson_mac_os.Base.{
  ℕ, zero, suc, ◌-◌, ◌≤◌, ◌<◌, Bool, true, not, Option, none, some, List, ◌≡◌, ◌≢◌, refl, arith,
  inl, inr, sym, subst, ◌∙◌, ◌↔◌, ap,
}
use ufson_mac_os.Base.{Bool-cases, set}
use ufson_mac_os.Base.Count.{count_below, count_below_less}
use ufson_mac_os.Dirhash.{
  Entry, empty, del, at, entry, is_empty, is_del, wrap_incr, wrap_decr, undelete,
}
use ufson_mac_os.Dirhash.Probe.{incr-decr, decr-lt}
use ufson_mac_os.Dirhash.Valid.{in_use, IsTable, InTable}
use ufson_mac_os.Dirhash.Delete.{clear-IsTable, InTable-clear, clear_elsewhere, clear_here}

pub del_lem : (e : Entry) → is_del e ≡ true → e ≡ del
del_lem empty h = cc
del_lem del h = refl
del_lem (at o) h = cc

pub empty_lem : (e : Entry) → is_empty e ≡ true → e ≡ empty
empty_lem empty h = refl
empty_lem del h = cc
empty_lem (at o) h = cc

pub at_inj : (p o : ℕ) → at p ≡ at o → p ≡ o
at_inj p o e = cc

unfoldable pub dels : List Entry → ℕ → Bool
dels hash i = is_del (entry hash i)

-- What `undelete` leaves: a valid table with the same offsets.
abbrev pub Cleared : List Entry → ℕ → ℕ → (ℕ → ℕ) → Option (List Entry × ℕ) → Type 0
Cleared hash limit used home none = ⊥
Cleared hash limit used home (some (hash', used')) =
    IsTable hash' limit used' home
    × ((p : ℕ) → InTable hash' limit p ↔ InTable hash limit p)
    × (used' ≤ used)

Cleared-after :
    (hash mid : List Entry) (limit used : ℕ) (home : ℕ → ℕ) (r : Option (List Entry × ℕ))
    → ((p : ℕ) → InTable mid limit p ↔ InTable hash limit p)
    → Cleared mid limit (used - 1) home r
    → Cleared hash limit used home r
Cleared-after hash mid limit used home none same c = c
Cleared-after hash mid limit used home (some (hash', used')) same c =
    (c.0, λ p. (λ h. (same p).0 ((c.1 p).0 h), λ h. (c.1 p).1 ((same p).1 h)), omega arith)

-- One round: a deleted slot before an empty one becomes empty.
module _ {hash : List Entry} {limit used : ℕ} {home : ℕ → ℕ} (t : IsTable hash limit used home)
    (i : ℕ) (low : i < limit) (mark : entry hash i ≡ del)
    (over : entry hash (wrap_incr limit i) ≡ empty) where
  abbrev next : List Entry
  next = set hash i empty

  away : (j : ℕ) → j ≢ i → entry next j ≡ entry hash j
  away j ne = clear_elsewhere t i empty low refl j ne

  now : entry next i ≡ empty
  now = clear_here t i empty low refl

  fewer_used : used - 1 ≡ count_below limit (in_use next)
  fewer_used =
      let less =
        count_below_less limit i (in_use hash) (in_use next) low (rw mark refl) (rw now refl)
          (λ j ne lt. ap (λ e. not (is_empty e)) (sym (away j ne))) in
      omega (arith, t.counted, less)

  fewer_dels : count_below limit (dels hash) ≡ suc (count_below limit (dels next))
  unfolding dels
  fewer_dels =
      count_below_less limit i (dels hash) (dels next) low (rw mark refl) (rw now refl)
        (λ j ne lt. ap is_del (sym (away j ne)))

  round-IsTable : IsTable next limit (used - 1) home
  round-IsTable = clear-IsTable t i empty low refl (used - 1) fewer_used (inr (rw over refl))

  same_offsets : (p : ℕ) → InTable next limit p ↔ InTable hash limit p
  same_offsets p = (
    λ h. let back = (InTable-clear t i empty low refl p).0 h in (back.0, back.1, back.2),
    λ h. (InTable-clear t i empty low refl p).1 (h.0, h.1, h.2, other h.0 h.2),
  )
    where
      other : (j : ℕ) → entry hash j ≡ at p → j ≢ i
      other j e same = absurd (let g = sym (subst (λ x. entry hash x ≡ at p) same e) ∙ mark in cc)

  before_empty : (j : ℕ) → wrap_incr limit j ≡ i → entry next (wrap_incr limit j) ≡ empty
  before_empty j e = rw e now

pub undelete-Cleared :
    (rounds limit used i : ℕ) (hash : List Entry) (home : ℕ → ℕ)
    → IsTable hash limit used home
    → i < limit
    → entry hash (wrap_incr limit i) ≡ empty
    → count_below limit (dels hash) < rounds
    → Cleared hash limit used home (undelete rounds limit i hash used)
unfolding undelete
undelete-Cleared zero limit used i hash home t low over few = absurd (omega arith)
undelete-Cleared (suc rounds) limit used i hash home t low over few =
    elim (Bool-cases (is_del (entry hash i))) [
      | inr f ↦ rw f (t, λ p. (λ h. h, λ h. h), omega arith)
      | inl d ↦
          let mark = del_lem (entry hash i) d in
          let less = fewer_dels t i low mark over in
          rw d (
            Cleared-after hash (set hash i empty) limit used home _ (same_offsets t i low mark over)
              (undelete-Cleared rounds limit (used - 1) (wrap_decr limit i) (set hash i empty) home
                (round-IsTable t i low mark over) (decr-lt limit i low)
                (before_empty t i low mark over (wrap_decr limit i) (incr-decr limit i low))
                (omega (arith, less))))
    ]
