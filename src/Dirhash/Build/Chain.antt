-- ===== src/Dirhash/Build/Chain.antt =====
-- The entries of a directory in the order of ufsX/ufs/ufs/ufs_dirhash.c: a chain from offset 0.
use ufson_mac_os.Base.{ℕ, ◌+◌, ◌≤◌, ◌<◌, ◌≡◌, ◌≢◌, ◌⊎◌, ◌↔◌, inl, inr, arith, refl, sym, subst}
use native.Mathlib.Decide.{dec_lt}
use ufson_mac_os.Dirhash.Block.{Directory}
use ufson_mac_os.Dirhash.Block.Entries.{Leads, here, next, Leads-le}

-- An entry in use that the chain reaches before offset `pos`.
abbrev pub Listed : Directory → ℕ → ℕ → Type 0
Listed dir pos p = Leads dir 0 p × (p < pos) × ((dir.direct p).ino ≢ 0)

-- Of two offsets on a chain, the chain goes from the lower to the higher.
between : {dir : Directory} {a b c : ℕ} → Leads dir a b → Leads dir a c → b ≤ c → Leads dir b c
between here to le = to
between (next pos rest) here le = absurd (let up = Leads-le rest in omega arith)
between (next pos rest) (next pos' rest') le = between rest rest' le

pub Leads_snoc :
    {dir : Directory} {a b : ℕ}
    → Leads dir a b
    → 0 < (dir.direct b).reclen
    → Leads dir a (b + (dir.direct b).reclen)
Leads_snoc here pos = next pos here
Leads_snoc (next step rest) pos = next step (Leads_snoc rest pos)

-- One entry further, the entry at `pos` is listed too.
pub Listed-snoc :
    (dir : Directory) (pos p : ℕ)
    → Leads dir 0 pos
    → 0 < (dir.direct pos).reclen
    → Listed dir (pos + (dir.direct pos).reclen) p
      ↔ (((p ≡ pos) × ((dir.direct pos).ino ≢ 0)) ⊎ Listed dir pos p)
Listed-snoc dir pos p lead len = (forth, back)
  where
    same : (p : ℕ) → Leads dir pos p → p < pos + (dir.direct pos).reclen → p ≡ pos
    same p here lt = refl
    same p (next step rest) lt = absurd (let up = Leads-le rest in omega arith)

    forth :
        Listed dir (pos + (dir.direct pos).reclen) p
        → ((p ≡ pos) × ((dir.direct pos).ino ≢ 0)) ⊎ Listed dir pos p
    forth (to, lt, live) = elim (dec_lt p pos) [
      | yes low ↦ inr (to, low, live)
      | no high ↦
          let at = same p (between lead to (omega arith)) lt in
          inl (at, subst (λ q. (dir.direct q).ino ≢ 0) at live)
    ]

    back :
        ((p ≡ pos) × ((dir.direct pos).ino ≢ 0)) ⊎ Listed dir pos p
        → Listed dir (pos + (dir.direct pos).reclen) p
    back (inl (at, live)) = (
      subst (Leads dir 0) (sym at) lead,
      omega arith,
      subst (λ q. (dir.direct q).ino ≢ 0) (sym at) live,
    )
    back (inr (to, lt, live)) = (to, omega arith, live)
