-- ===== src/Bmap/Path.antt =====
-- The paths of `ufs_getlbns` of ufsX/ufs/ufs/ufs_bmap.c, read as numbers.
use ufson_mac_os.Base.{ℕ, zero, suc, ◌+◌, ◌-◌, ◌*◌, ◌/◌, ◌%◌, ◌^◌, ◌<◌, ◌≤◌, Option, none, some}
use ufson_mac_os.Base.{
  List, [], ◌∷◌, ltb, length, ◌≡◌, ap, arith, refl, sym, Bool-cases, inl, inr, subst,
}
use ufson_mac_os.Base.Int.{pos}
use native.Mathlib.Nat.{pow-zero, pow-suc, mod-lt, mod-one, mod-eq_of_lt}
use ufson_mac_os.Bmap.{Indir, Level, find_level, walk, path, on_level, lbns, getlbns}
use ufson_mac_os.Bmap.Digits.{mod-mul, pow-suc-div}

module _ (nindir : ℕ) where
  -- The number that the offsets write.
  abbrev pub value : List Indir → ℕ
  value [] = 0
  value (x ∷ xs) = x.off * nindir ^ length xs + value xs

  -- The first data block behind the pointer `i_ib[k]`.
  abbrev pub region : ℕ → ℕ
  region zero = 12
  region (suc k) = region k + nindir ^ suc k

  -- The data block that a path leads to.
  abbrev pub block_of : List Indir → ℕ
  block_of [] = 0
  block_of (x ∷ xs) = region x.off + value xs

  -- Every offset is one of an indirect block.
  abbrev pub InRange : List Indir → Type 0
  InRange [] = Unit {0}
  InRange (x ∷ xs) = (x.off < nindir) × InRange xs

  -- A path leads to block `b`.
  abbrev pub Leads : ℕ → List Indir → Type 0
  Leads b [] = b < 12
  Leads b (x ∷ xs) =
      (block_of (x ∷ xs) ≡ b) × ((x.off < 3) × ((length xs ≡ suc x.off) × InRange xs))

  abbrev pub Reaches : ℕ → Option (List Indir) → Type 0
  Reaches b none = region 3 ≤ b
  Reaches b (some p) = Leads b p

module _ (nindir : ℕ) (pos_n : 0 < nindir) where
  length-walk : (left cnt bn m : ℕ) → length (walk nindir none left cnt bn m) ≡ left
  unfolding walk
  length-walk zero cnt bn m = refl
  length-walk (suc left) cnt bn m = ap suc (length-walk left _ bn _)

  value-walk :
      (left bn m : ℕ)
      → value nindir (walk nindir none left (nindir ^ left) bn m) ≡ bn % nindir ^ left
  unfolding walk
  value-walk zero bn m = rw (pow-zero, mod-one)
  value-walk (suc left) bn m =
      rw
        (
          pow-suc-div nindir left pos_n,
          length-walk left (nindir ^ left) bn,
          value-walk left bn (m + bn / nindir ^ left % nindir * nindir ^ left - 1),
          pow-suc,
        )
        (sym (mod-mul bn (nindir ^ left) nindir))

  InRange-walk : (left cnt bn m : ℕ) → InRange nindir (walk nindir none left cnt bn m)
  unfolding walk
  InRange-walk zero cnt bn m = tt
  InRange-walk (suc left) cnt bn m = (mod-lt (bn / (cnt / nindir)) pos_n, InRange-walk left _ bn _)

  -- What the first loop finds for block `b`: the region `k` that it lies in, and its place there.
  record Found (b : ℕ) (l : Level) : Type 0 where
    k : ℕ
    level : l.i + k ≡ 3
    some_level : 1 ≤ l.i
    cnt : l.blockcnt ≡ nindir ^ suc k
    place : b ≡ region nindir k + l.bn
    fits : l.bn < l.blockcnt

  abbrev Finds : ℕ → Option Level → Type 0
  Finds b none = region nindir 3 ≤ b
  Finds b (some l) = Found b l

  find_level-Finds :
      (i k cnt bn b : ℕ)
      → i + k ≡ 3
      → cnt ≡ nindir ^ k
      → b ≡ region nindir k + bn
      → Finds b (find_level nindir i cnt bn)
  unfolding find_level
  find_level-Finds zero k cnt bn b e c p =
      let k3 : k ≡ 3 = omega arith in
      let q : b ≡ region nindir 3 + bn = subst (λ (t : ℕ). b ≡ region nindir t + bn) k3 p in
      omega arith
  find_level-Finds (suc i) k cnt bn b e c p =
      let next : cnt * nindir ≡ nindir ^ suc k = rw (c, pow-suc) in
      elim (Bool-cases (ltb bn (cnt * nindir))) [
        | inl t ↦
            rw (t, find_level)
              (record {
                k = k;
                level = e;
                some_level = omega arith;
                cnt = next;
                place = p;
                fits = ground arith;
              })
        | inr f ↦
            let ge : cnt * nindir ≤ bn = ground arith in
            rw (f, find_level)
              (find_level-Finds i (suc k) (cnt * nindir) (bn - cnt * nindir) b (omega arith) next
                (omega arith))
      ]

  path-Leads : (b : ℕ) (l : Level) → Found b l → Leads nindir b (path nindir none b l)
  unfolding path
  path-Leads b l h =
      let k : 3 - l.i ≡ h.k = omega (arith, h.level) in
      let left : 4 - l.i ≡ suc h.k = omega (arith, h.level, h.some_level) in
      rw
        (
          k,
          left,
          h.cnt,
          length-walk (suc h.k) (nindir ^ suc h.k) l.bn,
          value-walk (suc h.k) l.bn,
          mod-eq_of_lt (subst (λ (t : ℕ). l.bn < t) h.cnt h.fits),
        )
        (
          sym h.place,
          (omega (arith, h.level, h.some_level), (refl, InRange-walk (suc h.k) _ l.bn _)),
        )

  on_level-Reaches :
      (b : ℕ) (l : Option Level) → Finds b l → Reaches nindir b (on_level nindir none b l)
  unfolding on_level
  on_level-Reaches b none h = h
  on_level-Reaches b (some l) h = path-Leads b l h

  -- For data block `b`, `ufs_getlbns` gives no path if `b` is one of the 12 direct blocks, and
  -- EFBIG only beyond the last block of the third region. Any other path leads to `b`: read as digits
  -- to the base `nindir` its offsets are the place of `b` in the region of its head, whose number is
  -- below 3, each offset is one of an indirect block, and there are as many indirect blocks as the
  -- region has levels.
  pub getlbns-Reaches : (b : ℕ) → Reaches nindir b (getlbns nindir (pos b))
  unfolding getlbns lbns
  getlbns-Reaches b = elim (Bool-cases (ltb b 12)) [
    | inl t ↦ rw (t, lbns) (ground arith)
    | inr f ↦
        rw (f, lbns)
          (on_level-Reaches b _
            (find_level-Finds 3 0 1 (b - 12) b refl (sym (pow-zero nindir)) (ground arith)))
  ]
