-- ===== src/Ffs/Fragacct/Runs.antt =====
-- What `ffs_fragacct` counts: the maximal runs of free fragments within a block, by length.
use ufson_mac_os.Base.{ℕ, zero, suc, ◌+◌, ◌-◌, ◌^◌, ◌≤◌, ◌<◌, Bool, true, false, bit_and}
use ufson_mac_os.Base.{not, ◌&&◌, ltb, leb, ◌==◌, ==_iff, if◌then◌else◌, get_or, ◌<<<◌, inl, inr}
use ufson_mac_os.Base.{◌≡◌, refl, arith}
use ufson_mac_os.Base.Bits.{all_below, all_below_sound}
use ufson_mac_os.Base.Count.{count_below}
use ufson_mac_os.Ffs.Tables.{around, inside, fragtbl}
use ufson_mac_os.Ffs.Block.Bytes.{bit}
use ufson_mac_os.Ffs.Block.Fragments.{IsFrag}
use ufson_mac_os.Ffs.Fragacct.{lacks_size}

-- Fragments `p` to `p + s - 1` of the block are free, and those next to them are not.
abbrev pub is_run : ℕ → ℕ → ℕ → ℕ → Bool
is_run frag m s p =
    leb (p + s) frag
    && all_below s (λ k. bit m (p + k))
    && not (ltb 0 p && bit m (p - 1))
    && not (ltb (p + s) frag && bit m (p + s))

unfoldable pub runs : ℕ → ℕ → ℕ → ℕ
runs frag m s = count_below frag (is_run frag m s)

-- The rounds of `positions` that add to the count.
module _ (frag fragmap siz : ℕ) where
  unfoldable pub matches : ℕ → ℕ → ℕ → ℕ → ℕ
  matches zero pos field subfield = 0
  matches (suc fuel) pos field subfield = elim (leb pos frag) [
    | true ↦ elim (bit_and fragmap field == subfield) [
      | true ↦ suc (matches fuel (pos + siz + 1) (field <<< siz <<< 1) (subfield <<< siz <<< 1))
      | false ↦ matches fuel (pos + 1) (field <<< 1) (subfield <<< 1)
    ]
    | false ↦ 0
  ]

unfoldable pub counted : ℕ → ℕ → ℕ → ℕ
counted frag m s =
    if lacks_size frag (get_or (fragtbl frag) m 0 <<< 1) s
    then 0
    else matches frag (m <<< 1) s (frag + 1) s (get_or around s 0) (get_or inside s 0)

-- Every size of every map: the pattern loop and its table agree with the runs.
abbrev agree : ℕ → ℕ → Bool
agree frag n =
    all_below (2 ^ frag) (λ m. all_below n (λ k. counted frag m (k + 1) == runs frag m (k + 1)))

agree_sound :
    (frag n m k : ℕ)
    → agree frag n ≡ true
    → m < 2 ^ frag
    → k < n
    → counted frag m (k + 1) ≡ runs frag m (k + 1)
agree_sound frag n m k h hm hk = (==_iff _ _).0 (
    all_below_sound n (λ k. counted frag m (k + 1) == runs frag m (k + 1)) k
      (all_below_sound (2 ^ frag) _ m h hm) hk)

counted-eq-runs-suc :
    {frag : ℕ} (m k : ℕ)
    → IsFrag frag
    → m < 2 ^ frag
    → suc k < frag
    → counted frag m (k + 1) ≡ runs frag m (k + 1)
unfolding counted matches runs all_below fragtbl count_below
counted-eq-runs-suc m k (inl e) hm hi = rw e (agree_sound 8 7 m k refl (rw e at hm) (omega arith))
counted-eq-runs-suc m k (inr (inl e)) hm hi =
    rw e (agree_sound 4 3 m k refl (rw e at hm) (omega arith))
counted-eq-runs-suc m k (inr (inr (inl e))) hm hi =
    rw e (agree_sound 2 1 m k refl (rw e at hm) (omega arith))
counted-eq-runs-suc m k (inr (inr (inr e))) hm hi = absurd (omega arith)

pub counted-eq-runs :
    {frag : ℕ} (m s : ℕ)
    → IsFrag frag
    → m < 2 ^ frag
    → 1 ≤ s
    → s < frag
    → counted frag m s ≡ runs frag m s
counted-eq-runs m zero known hm lo hi = absurd (omega arith)
counted-eq-runs m (suc k) known hm lo hi =
    let e : suc k ≡ k + 1 = omega arith in rw e (counted-eq-runs-suc m k known hm (omega arith))
