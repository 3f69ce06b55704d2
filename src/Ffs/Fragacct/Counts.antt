-- ===== src/Ffs/Fragacct/Counts.antt =====
-- The counts of `ffs_fragacct` of ufsX/ufs/ffs/ffs_subr.c.
use ufson_mac_os.Base.{ℕ, zero, suc, ◌+◌, ◌-◌, ◌*◌, ◌%◌, ◌^◌, ◌≤◌, ◌<◌, List}
use ufson_mac_os.Base.{
  ◌&&◌, ltb, leb, ◌==◌, if◌then◌else◌, get_or, get_or-set, add32, u32_mod, ◌<<<◌, length-set, ap,
  ◌∙◌,
}
use ufson_mac_os.Base.{◌≡◌, refl, arith, length}
use ufson_mac_os.Ffs.Tables.{around, inside, fragtbl}
use ufson_mac_os.Ffs.Block.Fragments.{IsFrag}
use ufson_mac_os.Ffs.Fragacct.Runs.{runs, matches, counted, counted-eq-runs}
use ufson_mac_os.Ffs.Fragacct.{bump, positions, lacks_size, sizes, fragacct}

-- Adding `cnt` a number of times.
abbrev bump_times : ℕ → ℕ → ℕ → List ℕ → List ℕ
bump_times siz cnt zero l = l
bump_times siz cnt (suc n) l = bump_times siz cnt n (bump l siz cnt)

length-bump : (l : List ℕ) (siz cnt : ℕ) → length (bump l siz cnt) ≡ length l
unfolding bump
length-bump l siz cnt = length-set l siz (add32 (get_or l siz 0) cnt)

length-bump_times : (siz cnt n : ℕ) (l : List ℕ) → length (bump_times siz cnt n l) ≡ length l
length-bump_times siz cnt zero l = refl
length-bump_times siz cnt (suc n) l =
    length-bump_times siz cnt n (bump l siz cnt) ∙ length-bump l siz cnt

get_or-bump :
    (l : List ℕ) (siz cnt j : ℕ)
    → siz < length l
    → get_or (bump l siz cnt) j 0 ≡ (if j == siz then add32 (get_or l siz 0) cnt else get_or l j 0)
unfolding bump
get_or-bump l siz cnt j h = get_or-set l siz j (add32 (get_or l siz 0) cnt) 0 h

get_or-bump_times :
    (siz cnt n : ℕ) (l : List ℕ) (j : ℕ)
    → siz < length l
    → get_or l siz 0 < u32_mod
    → get_or (bump_times siz cnt n l) j 0
      ≡ (if j == siz then (get_or l j 0 + n * cnt) % u32_mod else get_or l j 0)
get_or-bump_times siz cnt zero l j h w = ground arith
get_or-bump_times siz cnt (suc n) l j h w = ground (
  arith,
  get_or-bump l siz cnt j h,
  get_or-bump l siz cnt siz h,
  length-bump l siz cnt,
  get_or-bump_times siz cnt n (bump l siz cnt) j,
)

positions_lem :
    (frag fragmap siz cnt fuel pos field subfield : ℕ) (l : List ℕ)
    → positions frag fragmap siz cnt fuel pos field subfield l
      ≡ bump_times siz cnt (matches frag fragmap siz fuel pos field subfield) l
unfolding positions matches
positions_lem frag fragmap siz cnt zero pos field subfield l = refl
positions_lem frag fragmap siz cnt (suc fuel) pos field subfield l = ground (
  arith,
  positions_lem frag fragmap siz cnt fuel (pos + siz + 1) (field <<< siz <<< 1)
      (subfield <<< siz <<< 1) (bump l siz cnt),
  positions_lem frag fragmap siz cnt fuel (pos + 1) (field <<< 1) (subfield <<< 1) l,
)

-- What the loop over the sizes does, with a count for each size.
abbrev bump_each : (ℕ → ℕ) → ℕ → ℕ → ℕ → List ℕ → List ℕ
bump_each c cnt zero siz l = l
bump_each c cnt (suc left) siz l = bump_each c cnt left (siz + 1) (bump_times siz cnt (c siz) l)

sizes_lem :
    (frag m cnt left siz : ℕ) (l : List ℕ)
    → sizes frag (m <<< 1) (get_or (fragtbl frag) m 0 <<< 1) cnt left siz l
      ≡ bump_each (counted frag m) cnt left siz l
unfolding sizes counted
sizes_lem frag m cnt zero siz l = refl
sizes_lem frag m cnt (suc left) siz l =
    ap (sizes frag (m <<< 1) (get_or (fragtbl frag) m 0 <<< 1) cnt left (siz + 1)) step
    ∙ sizes_lem frag m cnt left (siz + 1) (bump_times siz cnt (counted frag m siz) l)
  where
    step :
        (if lacks_size frag (get_or (fragtbl frag) m 0 <<< 1) siz
          then l
          else positions frag
              (m <<< 1)
              siz
              cnt
              (frag + 1)
              siz
              (get_or around siz 0)
              (get_or inside siz 0)
              l)
        ≡ bump_times siz cnt (counted frag m siz) l
    step = ground (
      arith,
      positions_lem frag (m <<< 1) siz cnt (frag + 1) siz (get_or around siz 0)
          (get_or inside siz 0) l,
    )

-- Each element is a 32-bit word.
abbrev pub AreWords : List ℕ → Type 0
AreWords l = (i : ℕ) → get_or l i 0 < u32_mod

bump_times-AreWords :
    (siz cnt n : ℕ) (l : List ℕ) → siz < length l → AreWords l → AreWords (bump_times siz cnt n l)
bump_times-AreWords siz cnt n l h w i =
    ground (arith, get_or-bump_times siz cnt n l i h (w siz), w i)

get_or-bump_each :
    (c : ℕ → ℕ) (cnt left siz : ℕ) (l : List ℕ) (j : ℕ)
    → siz + left ≤ length l
    → AreWords l
    → get_or (bump_each c cnt left siz l) j 0 ≡ (
        if leb siz j && ltb j (siz + left)
        then (get_or l j 0 + c j * cnt) % u32_mod
        else get_or l j 0)
get_or-bump_each c cnt zero siz l j h w = ground arith
get_or-bump_each c cnt (suc left) siz l j h w =
    let l' : List ℕ = bump_times siz cnt (c siz) l in
    ground (
      arith,
      get_or-bump_times siz cnt (c siz) l j (omega arith) (w siz),
      get_or-bump_each c cnt left (siz + 1) l' j (rw length-bump_times (omega arith))
          (bump_times-AreWords siz cnt (c siz) l (omega arith) w),
    )

module _ {frag : ℕ} (m j cnt : ℕ) (fraglist : List ℕ) (known : IsFrag frag) (inside : m < 2 ^ frag)
    (room : frag ≤ length fraglist) (words : AreWords fraglist) where
  -- `ffs_fragacct` adds `cnt` to the count of each size below `fs_frag` once for every maximal run
  -- of that many free fragments in the block, modulo 2 ^ 32, and leaves every other count alone;
  -- `m` is the block's map, and there is a 32-bit count for each size.
  pub fragacct_lem : get_or (fragacct frag m fraglist cnt) j 0 ≡ (
      if leb 1 j && ltb j frag
      then (get_or fraglist j 0 + runs frag m j * cnt) % u32_mod
      else get_or fraglist j 0)
  unfolding fragacct
  fragacct_lem =
      let pos : 1 ≤ frag = ground arith in
      rw (sizes_lem frag m cnt (frag - 1) 1 fraglist) (
        ground (
          arith,
          get_or-bump_each (counted frag m) cnt (frag - 1) 1 fraglist j (omega arith) words,
          counted-eq-runs m j known inside,
        ))
