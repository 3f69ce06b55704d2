-- ===== src/Ffs/Cluster/Tally.antt =====
-- The free clusters of a map, counted by size: what `cg_clustersum` is to hold.
use ufson_mac_os.Base.{
  ℕ, zero, suc, ◌+◌, ◌-◌, ◌<◌, ◌≤◌, Bool, true, false, ◌&&◌, List, [], ◌∷◌, ◌++◌,
}
use ufson_mac_os.Base.{ltb, ◌==◌, if◌then◌else◌, ◌≡◌, ◌≢◌, refl, sym, ap, ◌∙◌, arith, min, length}
use mathlib.Core.Path.{ap₂}
use native.Mathlib.Nat.{add-zero, zero-add}
use ufson_mac_os.Ffs.Cluster.Walk.{run_up, run_down}

-- The blocks `i` to `i + n - 1`.
abbrev pub blocks : (ℕ → Bool) → ℕ → ℕ → List Bool
blocks f i zero = []
blocks f i (suc n) = f i ∷ blocks f (i + 1) n

module _ (cap k : ℕ) where
  -- 1 if a run of `m` free blocks counts as a cluster of size `k`; no size is above `cap`.
  unfoldable pub sized : ℕ → ℕ
  sized m = if ltb 0 m && (min m cap == k) then 1 else 0

  -- The maximal runs that count for size `k`, where `m` free blocks stand before the list.
  unfoldable pub tally : ℕ → List Bool → ℕ
  tally m [] = sized m
  tally m (true ∷ bs) = tally (m + 1) bs
  tally m (false ∷ bs) = sized m + tally 0 bs

  -- The runs that end within the list, and the free blocks at its end.
  ended : ℕ → List Bool → ℕ
  ended m [] = 0
  ended m (true ∷ bs) = ended (m + 1) bs
  ended m (false ∷ bs) = sized m + ended 0 bs

  -- The runs after the first block that is not free.
  later : List Bool → ℕ
  later [] = 0
  later (true ∷ bs) = later bs
  later (false ∷ bs) = tally 0 bs

abbrev trail : ℕ → List Bool → ℕ
trail m [] = m
trail m (true ∷ bs) = trail (m + 1) bs
trail m (false ∷ bs) = trail 0 bs

abbrev lead : List Bool → ℕ
lead [] = 0
lead (true ∷ bs) = suc (lead bs)
lead (false ∷ bs) = 0

module _ (cap k : ℕ) where
  tally-append :
      (m : ℕ) (bs cs : List Bool)
      → tally cap k m (bs ++ cs) ≡ ended cap k m bs + tally cap k (trail m bs) cs
  unfolding tally ended
  tally-append m [] cs = omega arith
  tally-append m (true ∷ bs) cs = tally-append (m + 1) bs cs
  tally-append m (false ∷ bs) cs = omega (arith, tally-append 0 bs cs)

  tally-lead :
      (m : ℕ) (cs : List Bool) → tally cap k m cs ≡ sized cap k (m + lead cs) + later cap k cs
  unfolding tally later
  tally-lead m [] = simp add-zero
  tally-lead m (true ∷ cs) =
      tally-lead (m + 1) cs ∙ ap (λ t. sized cap k t + later cap k cs) (omega arith)
  tally-lead m (false ∷ cs) = rw add-zero

  -- Freeing the block between two lists joins the runs on both sides of it.
  tally_join :
      (bs cs : List Bool)
      → tally cap k 0 (bs ++ true ∷ cs) + sized cap k (trail 0 bs) + sized cap k (lead cs)
        ≡ tally cap k 0 (bs ++ false ∷ cs) + sized cap k (trail 0 bs + 1 + lead cs)
  unfolding tally
  tally_join bs cs =
      let none_before : sized cap k (0 + lead cs) ≡ sized cap k (lead cs) =
        ap (sized cap k) (omega arith) in
      omega (
        arith,
        tally-append 0 bs (true ∷ cs),
        tally-append 0 bs (false ∷ cs),
        tally-lead (trail 0 bs + 1) cs,
        tally-lead 0 cs,
        none_before,
      )

-- The list of the blocks split at one of them.
blocks_split :
    (f : ℕ → Bool) (i a b : ℕ)
    → blocks f i (a + suc b) ≡ blocks f i a ++ f (i + a) ∷ blocks f (i + a + 1) b
blocks_split f i zero b = simp (zero-add, add-zero)
blocks_split f i (suc a) b =
    let e : suc a + suc b ≡ suc (a + suc b) = omega arith in
    let next : i + suc a ≡ i + 1 + a = omega arith in
    rw (e, next) (ap (λ l. f i ∷ l) (blocks_split f (i + 1) a b))

lead-blocks : (f : ℕ → Bool) (n i : ℕ) → lead (blocks f i n) ≡ run_up f n i
unfolding run_up
lead-blocks f zero i = refl
lead-blocks f (suc n) i = ground (arith, lead-blocks f n (i + 1))

trail-append :
    (m : ℕ) (bs : List Bool) (b : Bool) → trail m (bs ++ b ∷ []) ≡ (if b then trail m bs + 1 else 0)
trail-append m [] true = refl
trail-append m [] false = refl
trail-append m (true ∷ bs) b = trail-append (m + 1) bs b
trail-append m (false ∷ bs) b = trail-append 0 bs b

trail-blocks : (f : ℕ → Bool) (n : ℕ) → trail 0 (blocks f 0 n) ≡ run_down f n n
unfolding run_down
trail-blocks f zero = refl
trail-blocks f (suc n) =
    let e : suc n - 1 ≡ n = omega arith in
    let last : suc n ≡ n + suc 0 = omega arith in
    let here : 0 + n ≡ n = omega arith in
    let front : blocks f 0 (suc n) ≡ blocks f 0 n ++ f n ∷ [] =
      ap (blocks f 0) last ∙ blocks_split f 0 n 0 ∙ ap (λ k. blocks f 0 n ++ f k ∷ []) here in
    ap (trail 0) front
    ∙ trail-append 0 (blocks f 0 n) (f n)
    ∙ rw e (ground (arith, trail-blocks f n))

-- A count of at most `c` rounds stops early or at `c`.
pub run_up-min : (f : ℕ → Bool) (c n i : ℕ) → run_up f (min c n) i ≡ min c (run_up f n i)
unfolding run_up
run_up-min f zero n i = let e : min 0 n ≡ 0 = omega arith in rw e (omega arith)
run_up-min f (suc c) zero i = let e : min (suc c) 0 ≡ 0 = omega arith in rw e (omega arith)
run_up-min f (suc c) (suc n) i =
    let e : min (suc c) (suc n) ≡ suc (min c n) = omega arith in
    rw e (ground (arith, run_up-min f c n (i + 1)))

pub run_down-min : (f : ℕ → Bool) (c n i : ℕ) → run_down f (min c n) i ≡ min c (run_down f n i)
unfolding run_down
run_down-min f zero n i = let e : min 0 n ≡ 0 = omega arith in rw e (omega arith)
run_down-min f (suc c) zero i = let e : min (suc c) 0 ≡ 0 = omega arith in rw e (omega arith)
run_down-min f (suc c) (suc n) i =
    let e : min (suc c) (suc n) ≡ suc (min c n) = omega arith in
    rw e (ground (arith, run_down-min f c n (i - 1)))

blocks_cong :
    (f g : ℕ → Bool) (i n : ℕ)
    → ((j : ℕ) → i ≤ j → j < i + n → f j ≡ g j)
    → blocks f i n ≡ blocks g i n
blocks_cong f g i zero h = refl
blocks_cong f g i (suc n) h =
    ap₂ ◌∷◌ (h i (omega arith) (omega arith))
      (blocks_cong f g (i + 1) n (λ j lo hi. h j (omega arith) (omega arith)))

-- Two maps that differ at block `b` alone, which is free in the first: their counts differ by the
-- run that `b` joins and by the two runs that it joins.
pub tally_of_join :
    (cap k : ℕ) (f g : ℕ → Bool) (n b : ℕ)
    → b < n
    → f b ≡ true
    → g b ≡ false
    → ((j : ℕ) → j ≢ b → f j ≡ g j)
    → tally cap k 0 (blocks f 0 n)
        + sized cap k (run_down f b b)
        + sized cap k (run_up f (n - (b + 1)) (b + 1))
      ≡ tally cap k 0 (blocks g 0 n)
        + sized cap k (run_down f b b + 1 + run_up f (n - (b + 1)) (b + 1))
tally_of_join cap k f g n b lt fb gb same =
    let e : n ≡ b + suc (n - (b + 1)) = omega arith in
    let z : 0 + b ≡ b = omega arith in
    let before : blocks g 0 b ≡ blocks f 0 b =
      blocks_cong g f 0 b (λ j lo hi. sym (same j (omega arith))) in
    let after : blocks g (b + 1) (n - (b + 1)) ≡ blocks f (b + 1) (n - (b + 1)) =
      blocks_cong g f (b + 1) (n - (b + 1)) (λ j lo hi. sym (same j (omega arith))) in
    let split_f : blocks f 0 n ≡ blocks f 0 b ++ true ∷ blocks f (b + 1) (n - (b + 1)) =
      ap (blocks f 0) e ∙ blocks_split f 0 b (n - (b + 1)) ∙ rw (z, fb) in
    let split_g : blocks g 0 n ≡ blocks f 0 b ++ false ∷ blocks f (b + 1) (n - (b + 1)) =
      ap (blocks g 0) e ∙ blocks_split g 0 b (n - (b + 1)) ∙ rw (z, gb, before, after) in
    rw (split_f, split_g, ← trail-blocks f b, ← lead-blocks f (n - (b + 1)) (b + 1))
      (tally_join cap k (blocks f 0 b) (blocks f (b + 1) (n - (b + 1))))

-- No more clusters than blocks.
pub tally-le : (cap k m : ℕ) (bs : List Bool) → tally cap k m bs ≤ m + length bs
unfolding tally sized
tally-le cap k m [] = ground arith
tally-le cap k m (true ∷ bs) = omega (arith, tally-le cap k (m + 1) bs)
tally-le cap k m (false ∷ bs) = ground (arith, tally-le cap k 0 bs)

pub length-blocks : (f : ℕ → Bool) (i n : ℕ) → length (blocks f i n) ≡ n
length-blocks f i zero = refl
length-blocks f i (suc n) = ap suc (length-blocks f (i + 1) n)

-- The runs next to a block do not look at the block itself.
pub run_up_cong :
    (f g : ℕ → Bool) (n i b : ℕ)
    → b < i
    → ((j : ℕ) → j ≢ b → f j ≡ g j)
    → run_up f n i ≡ run_up g n i
unfolding run_up
run_up_cong f g zero i b lt same = refl
run_up_cong f g (suc n) i b lt same =
    ground (arith, same i (omega arith), run_up_cong f g n (i + 1) b (omega arith) same)

pub run_down_cong :
    (f g : ℕ → Bool) (n i b : ℕ)
    → n ≤ i
    → i ≤ b
    → ((j : ℕ) → j ≢ b → f j ≡ g j)
    → run_down f n i ≡ run_down g n i
unfolding run_down
run_down_cong f g zero i b le lt same = refl
run_down_cong f g (suc n) i b le lt same = ground (
  arith,
  same (i - 1) (omega arith),
  run_down_cong f g n (i - 1) b (omega arith) (omega arith) same,
)
