-- ===== src/Dirhash/Valid.antt =====
-- The invariant of the table of ufsX/ufs/ufs/ufs_dirhash.c: between the home of an offset and its
-- slot no slot is empty, no offset stands twice, and the slots in use are counted.
use ufson_mac_os.Base.{
  ℕ, zero, suc, ◌<◌, Bool, true, false, not, List, ◌≡◌, arith, inl, inr, sym, subst, [], ◌∷◌,
}
use ufson_mac_os.Base.{◌==◌, if◌then◌else◌, Bool-cases, length, set, get_or-set}
use ufson_mac_os.Base.Count.{count_below}
use ufson_mac_os.Dirhash.{Entry, empty, at, Dirhash, entry, is_empty}
use ufson_mac_os.Dirhash.Probe.{turn, gap, turn-gap}

abbrev pub in_use : List Entry → ℕ → Bool
in_use hash i = not (is_empty (entry hash i))

-- `home` gives the slot that the name of the entry at an offset hashes to.
pub record IsTable (hash : List Entry) (limit used : ℕ) (home : ℕ → ℕ) : Type 0 where
  pub sized : length hash ≡ limit
  pub counted : used ≡ count_below limit (in_use hash)
  pub homes : (o : ℕ) → home o < limit
  pub chained :
      (s o j : ℕ)
      → s < limit
      → entry hash s ≡ at o
      → j < gap limit (home o) s
      → in_use hash (turn limit (home o) j) ≡ true
  pub once : (s t o : ℕ) → s < limit → t < limit → entry hash s ≡ at o → entry hash t ≡ at o → s ≡ t

-- The offset stands in the table.
abbrev pub InTable : List Entry → ℕ → ℕ → Type 0
InTable hash limit o = (s : ℕ) × (s < limit) × (entry hash s ≡ at o)

pub record IsValid (dh : Dirhash) (home : ℕ → ℕ) : Type 0 where
  pub table : IsTable dh.hash dh.hlen dh.hused home
  pub room : dh.hused < dh.hlen

abbrev pub Holds : Dirhash → ℕ → Type 0
Holds dh o = InTable dh.hash dh.hlen o

-- A number below the bound that is not counted.
pub not_counted : (n : ℕ) (p : ℕ → Bool) → count_below n p < n → (i : ℕ) × (i < n) × (p i ≡ false)
unfolding count_below
not_counted zero p few = absurd (omega arith)
not_counted (suc n) p few = elim (Bool-cases (p n)) [
  | inr f ↦ (n, omega arith, f)
  | inl t ↦
      let fewer : count_below n p < n = ground arith in
      let rest = not_counted n p (omega arith) in (rest.0, omega (arith, rest.1), rest.2)
]

-- A search meets an empty slot.
pub empty_ahead :
    {hash : List Entry} {limit used : ℕ} {home : ℕ → ℕ}
    → IsTable hash limit used home
    → used < limit
    → (i : ℕ) → i < limit
    → (k : ℕ) × (k < limit) × (is_empty (entry hash (turn limit i k)) ≡ true)
empty_ahead {hash} {limit} t room i low =
    let free = not_counted limit (in_use hash) (omega (arith, t.counted)) in
    let there = turn-gap limit i free.0 low free.1 in
    (gap limit i free.0, there.0, rw there.1 (ground (arith, free.2)))

-- One slot is written.
pub entry-set :
    (hash : List Entry) (s i : ℕ) (e : Entry)
    → s < length hash
    → entry (set hash s e) i ≡ (if i == s then e else entry hash i)
entry-set hash s i e low = get_or-set hash s i e empty low

-- The homes of offsets that do not stand in the table may change.
pub rehome :
    {hash : List Entry} {limit used : ℕ} {home : ℕ → ℕ} (home' : ℕ → ℕ)
    → IsTable hash limit used home
    → ((o : ℕ) → home' o < limit)
    → ((o : ℕ) → InTable hash limit o → home' o ≡ home o)
    → IsTable hash limit used home'
rehome {hash} {limit} {used} {home} home' t homes' same = record {
  sized = t.sized;
  counted = t.counted;
  homes = homes';
  chained = λ s o j low e short.
      let agree = same o (s, low, e) in
      subst (λ h. in_use hash (turn limit h j) ≡ true) (sym agree)
        (t.chained s o j low e (subst (λ h. j < gap limit h s) agree short));
  once = t.once;
}

-- What stands in the table stands below its length.
pub entry_low : (hash : List Entry) (s o : ℕ) → entry hash s ≡ at o → s < length hash
entry_low [] s o e = cc
entry_low (x ∷ xs) zero o e = omega arith
entry_low (x ∷ xs) (suc s) o e = omega (arith, entry_low xs s o e)
