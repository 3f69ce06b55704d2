-- ===== src/Dirhash/Insert.antt =====
-- `ufsdirhash_add` of ufsX/ufs/ufs/ufs_dirhash.c: the search for a free slot, and the write.
pub mod Add
use ufson_mac_os.Base.{
  ℕ, zero, suc, ◌+◌, ◌-◌, ◌*◌, ◌/◌, ◌≤◌, ◌<◌, Bool, true, false, not, Option, none, some, List, ◌≡◌,
  ◌≢◌, refl, arith, inl, inr, sym, subst, ◌∙◌, ◌⊎◌, ◌↔◌, ap,
}
use ufson_mac_os.Base.{◌==◌, if◌then◌else◌, Bool-cases, length, set, get_or-set, length-set}
use ufson_mac_os.Base.Count.{count_below, count_below_cong, count_below_less}
use ufson_mac_os.Dirhash.{Entry, empty, del, at, Dirhash, entry, is_empty, is_offset}
use ufson_mac_os.Dirhash.Probe.{turn, gap, gap-turn, turn-lt}
use ufson_mac_os.Dirhash.Valid.{in_use, IsTable, InTable, entry-set}

at_inj : (p o : ℕ) → at p ≡ at o → p ≡ o
at_inj p o e = cc

no_offset : (e : Entry) (p : ℕ) → is_offset e ≡ false → ¬ (e ≡ at p)
no_offset e p f h = absurd (let g = subst (λ x. is_offset x ≡ false) h f in cc)

-- Offset `o` is written into slot `s`, which no offset stands in and which the search from the
-- home of `o` reached over slots in use.
module _ {hash : List Entry} {limit used : ℕ} {home : ℕ → ℕ} (t : IsTable hash limit used home)
    (s o : ℕ) (low : s < limit) (fresh : ¬ InTable hash limit o)
    (taken : is_offset (entry hash s) ≡ false)
    (path : (j : ℕ) → j < gap limit (home o) s → in_use hash (turn limit (home o) j) ≡ true) where
  abbrev hash' : List Entry
  hash' = set hash s (at o)

  abbrev used' : ℕ
  used' = if is_empty (entry hash s) then used + 1 else used

  after : (i : ℕ) → entry hash' i ≡ (if i == s then at o else entry hash i)
  after i = entry-set hash s i (at o) (omega (arith, t.sized))

  keeps_use : (i : ℕ) → in_use hash i ≡ true → in_use hash' i ≡ true
  keeps_use i u = elim (Bool-cases (i == s)) [
    | inl e ↦ rw (after i, e) refl
    | inr f ↦ rw (after i, f) u
  ]

  elsewhere : (i : ℕ) → i ≢ s → entry hash' i ≡ entry hash i
  elsewhere i ne = ground (arith, after i)

  here : entry hash' s ≡ at o
  here = ground (arith, after s)

  -- An entry of the new table is the new one, or an old one.
  from : (i p : ℕ) → entry hash' i ≡ at p → ((i ≡ s) × (p ≡ o)) ⊎ (entry hash i ≡ at p)
  from i p e = elim (Bool-cases (i == s)) [
    | inl y ↦
        let same : i ≡ s = ground arith in
        inl (same, at_inj p o (sym e ∙ subst (λ x. entry hash' x ≡ at o) (sym same) here))
    | inr f ↦ inr (sym (elsewhere i (ground arith)) ∙ e)
  ]

  counted' : used' ≡ count_below limit (in_use hash')
  counted' = elim (Bool-cases (is_empty (entry hash s))) [
    | inl e ↦
        let more =
          count_below_less limit s (in_use hash') (in_use hash) low (rw here refl) (rw e refl)
            (λ i ne lt. ap (λ x. not (is_empty x)) (elsewhere i ne)) in
        rw e (omega (arith, t.counted))
    | inr e ↦
        let same = count_below_cong limit (in_use hash') (in_use hash) (λ i lt. unchanged i e) in
        rw e (omega (arith, t.counted))
  ]
    where
      unchanged : (i : ℕ) → is_empty (entry hash s) ≡ false → in_use hash' i ≡ in_use hash i
      unchanged i e = elim (Bool-cases (i == s)) [
        | inl y ↦
            let same : i ≡ s = ground arith in
            subst (λ x. in_use hash' x ≡ in_use hash x) (sym same) (rw (here, e) refl)
        | inr f ↦ ap (λ x. not (is_empty x)) (elsewhere i (ground arith))
      ]

  chained' :
      (r p j : ℕ)
      → r < limit
      → entry hash' r ≡ at p
      → j < gap limit (home p) r
      → in_use hash' (turn limit (home p) j) ≡ true
  chained' r p j below e short = elim (from r p e) [
    | inl same ↦
        let ahead = path j (
          subst (λ x. j < gap limit (home x) s) same.1
            (subst (λ x. j < gap limit (home p) x) same.0 short)) in
        keeps_use (turn limit (home p) j)
          (subst (λ x. in_use hash (turn limit (home x) j) ≡ true) (sym same.1) ahead)
    | inr old ↦ keeps_use _ (t.chained r p j below old short)
  ]

  once' : (r q p : ℕ) → r < limit → q < limit → entry hash' r ≡ at p → entry hash' q ≡ at p → r ≡ q
  once' r q p lr lq er eq = both (from r p er) (from q p eq)
    where
      both :
          ((r ≡ s) × (p ≡ o)) ⊎ (entry hash r ≡ at p)
          → ((q ≡ s) × (p ≡ o)) ⊎ (entry hash q ≡ at p)
          → r ≡ q
      both (inl a) (inl b) = a.0 ∙ sym b.0
      both (inl a) (inr b) = absurd (fresh (q, lq, b ∙ ap at a.1))
      both (inr a) (inl b) = absurd (fresh (r, lr, a ∙ ap at b.1))
      both (inr a) (inr b) = t.once r q p lr lq a b

  -- The table stays valid.
  pub insert-IsTable : IsTable hash' limit used' home
  insert-IsTable = record {
    sized = length-set hash s (at o) ∙ t.sized;
    counted = counted';
    homes = t.homes;
    chained = chained';
    once = once';
  }

  -- It holds one offset more.
  pub InTable-insert : (p : ℕ) → InTable hash' limit p ↔ ((p ≡ o) ⊎ InTable hash limit p)
  InTable-insert p = (forth, back)
    where
      forth : InTable hash' limit p → (p ≡ o) ⊎ InTable hash limit p
      forth (i, lt, e) = elim (from i p e) [ inl same ↦ inl same.1 | inr old ↦ inr (i, lt, old) ]

      back : (p ≡ o) ⊎ InTable hash limit p → InTable hash' limit p
      back (inl e) = (s, low, here ∙ ap at (sym e))
      back (inr (i, lt, e)) = elim (Bool-cases (i == s)) [
        | inl y ↦ absurd (
            let same : i ≡ s = ground arith in
            no_offset (entry hash s) p taken (subst (λ x. entry hash x ≡ at p) same e))
        | inr f ↦ (i, lt, elsewhere i (ground arith) ∙ e)
      ]
