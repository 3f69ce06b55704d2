-- ===== src/Alloc/Mapsearch/Byte.antt =====
-- The loops of `ffs_mapsearch` over one byte of the map, for every byte there is.
use ufson_mac_os.Base.{
  ℕ, zero, suc, ◌+◌, ◌-◌, ◌*◌, ◌/◌, ◌^◌, ◌<◌, ◌≤◌, Bool, true, false, not, Option, none, some,
  bit_and, inl, inr,
}
use ufson_mac_os.Base.{
  ◌≡◌, ◌≢◌, ap, ◌∙◌, refl, arith, ltb, ◌==◌, ==_iff, Bool-cases, get_or, ◌>>>◌, if◌then◌else◌,
}
use ufson_mac_os.Base.Bits.{all_below, all_below_sound}
use ufson_mac_os.Base.Count.{count_below}
use ufson_mac_os.Ffs.Tables.{fragtbl}
use ufson_mac_os.Ffs.Block.Bytes.{bit}
use ufson_mac_os.Ffs.Block.Fragments.{IsFrag, frag_cases}
use ufson_mac_os.Ffs.Fragacct.Runs.{is_run, runs}
use ufson_mac_os.Alloc.Mapsearch.{scan_mask, place, place_in}

-- The bits of the byte `b` that are those of block `q` in it.
abbrev pub block_bits : ℕ → ℕ → ℕ → ℕ
block_bits frag b q = bit_and (b >>> (q * frag)) (0xff >>> (8 - frag))

abbrev pub listed : ℕ → ℕ → ℕ → Bool
listed frag siz b = not (bit_and (get_or (fragtbl frag) b 0) (scan_mask frag siz) == 0)

-- Whether the pattern loop gives a run of the block exactly as there is one.
abbrev pub gives_run : ℕ → ℕ → ℕ → Option ℕ → Bool
gives_run frag siz m none = runs frag m siz == 0
gives_run frag siz m (some p) = is_run frag m siz p

abbrev pub some_run : ℕ → ℕ → ℕ → ℕ → Bool
some_run frag siz b zero = false
some_run frag siz b (suc q) =
    if runs frag (block_bits frag b q) siz == 0 then some_run frag siz b q else true

abbrev same : Bool → Bool → Bool
same true b = b
same false b = not b

abbrev placed_at : ℕ → ℕ → ℕ → Bool
placed_at frag m k = gives_run frag (k + 1) m (place_in frag (k + 1) m)

abbrev scanned_at : ℕ → ℕ → ℕ → Bool
scanned_at frag b k = same (listed frag (k + 1) b) (some_run frag (k + 1) b (8 / frag))

-- The bits of a block are within its width, and they are those of the byte.
abbrev width_at : ℕ → ℕ → ℕ → Bool
width_at frag b q = ltb (block_bits frag b q) (2 ^ frag)

abbrev bit_at : ℕ → ℕ → ℕ → ℕ → Bool
bit_at frag b q j = same (bit (block_bits frag b q) j) (bit b (q * frag + j))

same_sound : (a b : Bool) → same a b ≡ true → a ≡ b
same_sound true b h = ground arith
same_sound false b h = ground arith

placed_hold :
    {frag : ℕ} → IsFrag frag → all_below (2 ^ frag) (λ m. all_below frag (placed_at frag m)) ≡ true
unfolding all_below count_below runs place place_in
placed_hold known =
    frag_cases (λ f. all_below (2 ^ f) (λ m. all_below f (placed_at f m)) ≡ true) known refl refl
      refl refl

scanned_hold :
    {frag : ℕ} → IsFrag frag → all_below 256 (λ b. all_below frag (scanned_at frag b)) ≡ true
unfolding all_below fragtbl count_below runs
scanned_hold known =
    frag_cases (λ f. all_below 256 (λ b. all_below f (scanned_at f b)) ≡ true) known refl refl refl
      refl

width_hold :
    {frag : ℕ} → IsFrag frag → all_below 256 (λ b. all_below (8 / frag) (width_at frag b)) ≡ true
unfolding all_below
width_hold known =
    frag_cases (λ f. all_below 256 (λ b. all_below (8 / f) (width_at f b)) ≡ true) known refl refl
      refl refl

bit_hold :
    {frag : ℕ}
    → IsFrag frag
    → all_below 256 (λ b. all_below (8 / frag) (λ q. all_below frag (bit_at frag b q))) ≡ true
unfolding all_below
bit_hold known =
    frag_cases
      (λ f. all_below 256 (λ b. all_below (8 / f) (λ q. all_below f (bit_at f b q))) ≡ true) known
      refl refl refl refl

module _ {frag : ℕ} (known : IsFrag frag) where
  pub gives-run :
      (m k : ℕ)
      → m < 2 ^ frag
      → k < frag
      → gives_run frag (k + 1) m (place_in frag (k + 1) m) ≡ true
  gives-run m k hm hk =
      all_below_sound frag (placed_at frag m) k
        (all_below_sound (2 ^ frag) (λ m. all_below frag (placed_at frag m)) m (placed_hold known)
          hm)
        hk

  pub listed-some_run :
      (b k : ℕ) → b < 256 → k < frag → listed frag (k + 1) b ≡ some_run frag (k + 1) b (8 / frag)
  listed-some_run b k hb hk = same_sound (listed frag (k + 1) b) _ (
      all_below_sound frag (scanned_at frag b) k
        (all_below_sound 256 (λ b. all_below frag (scanned_at frag b)) b (scanned_hold known) hb)
        hk)

  pub block_bits-lt : (b q : ℕ) → b < 256 → q < 8 / frag → block_bits frag b q < 2 ^ frag
  block_bits-lt b q hb hq =
      let t : ltb (block_bits frag b q) (2 ^ frag) ≡ true =
        all_below_sound (8 / frag) (width_at frag b) q
          (all_below_sound 256 (λ b. all_below (8 / frag) (width_at frag b)) b (width_hold known)
            hb)
          hq in
      ground arith

  pub bit-block_bits :
      (b q j : ℕ)
      → b < 256
      → q < 8 / frag
      → j < frag
      → bit (block_bits frag b q) j ≡ bit b (q * frag + j)
  bit-block_bits b q j hb hq hj =
      let byte =
        all_below_sound 256 (λ b. all_below (8 / frag) (λ q. all_below frag (bit_at frag b q))) b
          (bit_hold known) hb in
      let block = all_below_sound (8 / frag) (λ q. all_below frag (bit_at frag b q)) q byte hq in
      same_sound (bit (block_bits frag b q) j) _ (all_below_sound frag (bit_at frag b q) j block hj)

-- The blocks of a byte fit in it.
pub block_fits : {frag : ℕ} (q : ℕ) → IsFrag frag → q < 8 / frag → q * frag + frag ≤ 8
block_fits q known =
    frag_cases (λ f. q < 8 / f → q * f + f ≤ 8) known (λ h. omega arith) (λ h. omega arith)
      (λ h. omega arith) (λ h. omega arith)

pub some_run_complete :
    (frag siz b n q : ℕ)
    → q < n
    → runs frag (block_bits frag b q) siz ≢ 0
    → some_run frag siz b n ≡ true
some_run_complete frag siz b zero q lt ne = absurd (omega arith)
some_run_complete frag siz b (suc n) q lt ne =
    elim (Bool-cases (runs frag (block_bits frag b n) siz == 0)) [
      | inr e ↦ ground arith
      | inl e ↦
          let off : q ≢ n =
            λ at. ne (ap (λ t. runs frag (block_bits frag b t) siz) at ∙ (==_iff _ _).0 e) in
          ground (arith, some_run_complete frag siz b n q (omega arith) ne)
    ]

pub some_run_sound :
    (frag siz b n : ℕ)
    → some_run frag siz b n ≡ true
    → (q : ℕ) × (q < n) × (runs frag (block_bits frag b q) siz ≢ 0)
some_run_sound frag siz b zero h = absurd (ground arith)
some_run_sound frag siz b (suc n) h = elim (Bool-cases (runs frag (block_bits frag b n) siz == 0)) [
  | inr e ↦ (n, omega arith, λ z. ground arith)
  | inl e ↦ let (q, lt, ne) = some_run_sound frag siz b n (ground arith) in (q, omega arith, ne)
]
