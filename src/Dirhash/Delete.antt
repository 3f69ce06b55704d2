-- ===== src/Dirhash/Delete.antt =====
-- `ufsdirhash_delslot` of ufsX/ufs/ufs/ufs_dirhash.c: a slot is marked, and deleted slots that end a
-- chain are given back.
pub mod Undelete
pub mod Delslot
use ufson_mac_os.Base.{
  ℕ, zero, suc, ◌+◌, ◌-◌, ◌*◌, ◌/◌, ◌≤◌, ◌<◌, Bool, true, false, not, Option, none, some, List, ◌≡◌,
  ◌≢◌, refl, arith, inl, inr, sym, subst, ◌∙◌, ◌⊎◌, ◌↔◌, ap,
}
use ufson_mac_os.Base.{◌==◌, if◌then◌else◌, Bool-cases, length, set, get_or-set, length-set}
use ufson_mac_os.Base.Count.{count_below, count_below_cong, count_below_less, count_below-le}
use ufson_mac_os.Dirhash.{
  Entry, empty, del, at, Dirhash, entry, is_empty, is_offset, is_del, wrap_incr, wrap_decr,
  undelete,
}
use ufson_mac_os.Dirhash.Probe.{
  turn, gap, gap-turn, turn-lt, turn-gap, incr-turn, incr-decr, decr-lt,
}
use ufson_mac_os.Dirhash.Valid.{in_use, IsTable, InTable, entry-set}

-- A write that puts no offset into slot `s`.
module _ {hash : List Entry} {limit used : ℕ} {home : ℕ → ℕ} (t : IsTable hash limit used home)
    (s : ℕ) (e : Entry) (low : s < limit) (bare : is_offset e ≡ false) where
  abbrev hash' : List Entry
  hash' = set hash s e

  pub clear_elsewhere : (i : ℕ) → i ≢ s → entry hash' i ≡ entry hash i
  clear_elsewhere i ne = ground (arith, entry-set hash s i e (omega (arith, t.sized)))

  pub clear_here : entry hash' s ≡ e
  clear_here = ground (arith, entry-set hash s s e (omega (arith, t.sized)))

  off : (i p : ℕ) → entry hash' i ≡ at p → i ≢ s
  off i p h same =
      let there : e ≡ at p = sym clear_here ∙ subst (λ x. entry hash' x ≡ at p) same h in
      absurd (let g = subst (λ x. is_offset x ≡ false) there bare in cc)

  old : (i p : ℕ) → entry hash' i ≡ at p → entry hash i ≡ at p
  old i p h = sym (clear_elsewhere i (off i p h)) ∙ h

  -- The table stays valid if the slot stays in use or no chain goes on after it, and the count is
  -- right.
  pub clear-IsTable :
      (used' : ℕ)
      → used' ≡ count_below limit (in_use hash')
      → (in_use hash' s ≡ true) ⊎ (in_use hash (wrap_incr limit s) ≡ false)
      → IsTable hash' limit used' home
  clear-IsTable used' counted' ends = record {
    sized = length-set hash s e ∙ t.sized;
    counted = counted';
    homes = t.homes;
    chained = chained' ends;
    once = λ r q p lr lq er eq. t.once r q p lr lq (old r p er) (old q p eq);
  }
    where
      on_path :
          (r p j : ℕ)
          → r < limit
          → entry hash r ≡ at p
          → j < gap limit (home p) r
          → in_use hash (wrap_incr limit (turn limit (home p) j)) ≡ true
      on_path r p j lr er short =
          let whole = turn-gap limit (home p) r (t.homes p) lr in
          let step = incr-turn limit (home p) j (t.homes p) (omega (arith, whole.0)) in
          rw step (elim (Bool-cases (suc j == gap limit (home p) r)) [
            | inl last ↦
                let far : suc j ≡ gap limit (home p) r = ground arith in rw (far, whole.1, er) refl
            | inr f ↦ t.chained r p (suc j) lr er (ground arith)
          ])

      chained' :
          (in_use hash' s ≡ true) ⊎ (in_use hash (wrap_incr limit s) ≡ false)
          → (r p j : ℕ) → r < limit
          → entry hash' r ≡ at p
          → j < gap limit (home p) r
          → in_use hash' (turn limit (home p) j) ≡ true
      chained' ends r p j lr er short = elim (Bool-cases (turn limit (home p) j == s)) [
        | inr f ↦
            subst (λ x. not (is_empty x) ≡ true)
              (sym (clear_elsewhere (turn limit (home p) j) (ground arith)))
              (t.chained r p j lr (old r p er) short)
        | inl y ↦
            let same : turn limit (home p) j ≡ s = ground arith in
            elim ends [
              | inl stays ↦ rw same stays
              | inr over ↦ absurd (
                  let g =
                    subst (λ x. in_use hash (wrap_incr limit x) ≡ true) same
                      (on_path r p j lr (old r p er) short) in
                  cc)
            ]
      ]

  -- It holds what stood elsewhere.
  pub InTable-clear :
      (p : ℕ) → InTable hash' limit p ↔ ((i : ℕ) × (i < limit) × (entry hash i ≡ at p) × (i ≢ s))
  InTable-clear p = (
    λ h. (h.0, h.1, old h.0 p h.2, off h.0 p h.2),
    λ h. (h.0, h.1, clear_elsewhere h.0 h.3 ∙ h.2),
  )
