-- ===== src/Alloc/Mapsearch/Scan.antt =====
-- The byte that `scanc` stops at in `ffs_mapsearch`, and the block in it.
use ufson_mac_os.Base.{
  ℕ, zero, suc, ◌+◌, ◌-◌, ◌*◌, ◌/◌, ◌%◌, ◌<◌, ◌≤◌, ◌⊎◌, true, false, Option, none, some, List,
  bit_and, inl, inr,
}
use ufson_mac_os.Base.{
  ◌≡◌, ◌≢◌, ap, subst, sym, ◌∙◌, refl, arith, ltb, ◌==◌, ==_iff, Bool-cases, get_or,
}
use ufson_mac_os.Ffs.Tables.{fragtbl}
use ufson_mac_os.Ffs.Block.Fragments.{IsFrag, AreBytes, frag_cases}
use ufson_mac_os.Ffs.Fragacct.Runs.{runs}
use ufson_mac_os.Alloc.Mapsearch.{scanc, scan_mask, place_in, sift, found, sifted, sift_byte}
use ufson_mac_os.Alloc.Mapsearch.Byte.{
  block_bits, block_fits, listed, listed-some_run, some_run_sound, some_run_complete,
}
use ufson_mac_os.Alloc.Mapsearch.Sift.{IsFreeRun, blkmap_lem, place_lem, place-none, run_lem}

option_cases : {A : Type 0} (o : Option A) → (o ≡ none) ⊎ ((a : A) × (o ≡ some a))
option_cases none = inl refl
option_cases (some a) = inr (a, refl)

next_lem : (q byte frag : ℕ) → byte * 8 + q * frag + frag ≡ byte * 8 + (q + 1) * frag
next_lem q byte frag = let e : q + 1 ≡ suc q = omega arith in rw e (omega arith)

eight_lem : {frag : ℕ} → IsFrag frag → 8 / frag ≤ 8 + 0
eight_lem known =
    frag_cases (λ f. 8 / f ≤ 8 + 0) known (omega arith) (omega arith) (omega arith) (omega arith)

abbrev Splits : ℕ → ℕ → Type 0
Splits bno f =
    (bno ≡ bno / 8 * 8 + bno % 8 / f * f + bno % f) × (bno % 8 / f < 8 / f) × (bno % f < f)

split_lem : {frag : ℕ} (bno : ℕ) → IsFrag frag → Splits bno frag
split_lem bno known =
    frag_cases (Splits bno) known (omega arith, omega arith, omega arith)
      (omega arith, omega arith, omega arith) (omega arith, omega arith, omega arith)
      (omega arith, omega arith, omega arith)

module _ {frag : ℕ} (known : IsFrag frag) (free : List ℕ) (bytes : AreBytes free) (k : ℕ)
    (size : k < frag) where
  -- The byte holds a run that the loop then stops at.
  abbrev Sifts : ℕ → ℕ → ℕ → Type 0
  Sifts byte left q0 =
      (r : ℕ) × (sift frag (k + 1) free left (byte * 8 + 8) (byte * 8 + q0 * frag) ≡ some r)
      × IsFreeRun frag free (k + 1) r
      × (r / 8 ≡ byte)

  sift_lem :
      (byte left q0 q : ℕ)
      → 8 / frag ≤ left + q0
      → q0 ≤ q
      → q < 8 / frag
      → runs frag (block_bits frag (get_or free byte 0) q) (k + 1) ≢ 0
      → Sifts byte left q0
  unfolding sift
  sift_lem byte zero q0 q room lo hi ne = absurd (omega arith)
  sift_lem byte (suc left) q0 q room lo hi ne =
      let below : q0 < 8 / frag = omega arith in
      let fits = block_fits q0 known below in
      let more : ltb (byte * 8 + q0 * frag) (byte * 8 + 8) ≡ true = ground arith in
      let bits = blkmap_lem known free bytes byte q0 below in
      elim (option_cases (place_in frag (k + 1) (block_bits frag (get_or free byte 0) q0))) [
        | inr (p, e) ↦
            let (run, own) = place_lem known free bytes byte q0 below k p size e in
            (byte * 8 + q0 * frag + p, rw (sift, more, bits, e) refl, run, own)
        | inl e ↦
            let off : q0 ≢ q = λ at. ne (
              ap (λ t. runs frag (block_bits frag (get_or free byte 0) t) (k + 1)) (sym at)
              ∙ place-none known free bytes byte q0 below k size e) in
            let (r, stops, run, own) =
              sift_lem byte left (q0 + 1) q (omega arith) (omega arith) hi ne in
            let next : byte * 8 + q0 * frag + frag ≡ byte * 8 + (q0 + 1) * frag =
              next_lem q0 byte frag in
            (r, rw (sift, more, bits, e, next) stops, run, own)
      ]

  -- The byte that `scanc` stops at, if there is one.
  abbrev pub Scans : ℕ → ℕ → ℕ → Type 0
  Scans left i loc =
      ((loc ≡ 0) × ((j : ℕ) → i ≤ j → j < i + left → listed frag (k + 1) (get_or free j 0) ≡ false))
      ⊎ ((1 ≤ loc) × (loc ≤ left) × (listed frag (k + 1) (get_or free (i + left - loc) 0) ≡ true))

  pub scanc_lem :
      (left i : ℕ) → Scans left i (scanc (fragtbl frag) (scan_mask frag (k + 1)) free left i)
  unfolding scanc
  scanc_lem zero i = inl (refl, λ j lo hi. absurd (omega arith))
  scanc_lem (suc left) i =
      elim (Bool-cases
        (bit_and (get_or (fragtbl frag) (get_or free i 0) 0) (scan_mask frag (k + 1)) == 0)) [
          | inr e ↦
              let here : i + suc left - suc left ≡ i = omega arith in
              rw (scanc, e) (inr (omega arith, omega arith, rw (here, e) refl))
          | inl e ↦
              let more : i + 1 + left ≡ i + suc left = omega arith in
              rw (scanc, e)
                (elim (scanc_lem left (i + 1)) [
                  | inl (stop, rest) ↦ inl (
                    stop,
                    λ j lo hi. elim (Bool-cases (j == i)) [
                      | inl at ↦ rw ((==_iff j i).0 at, e) refl
                      | inr off ↦
                          let off : j ≢ i = ground arith in rest j (omega arith) (omega arith)
                    ],
                  )
                  | inr (pos, low, hit) ↦ inr (
                    pos,
                    omega arith,
                    subst
                        (λ t.
                          listed frag (k + 1) (
                            get_or free
                              (t - scanc (fragtbl frag) (scan_mask frag (k + 1)) free left (i + 1))
                              0)
                          ≡ true)
                        more hit,
                  )
                ])
        ]

  -- A byte that the table lists.
  pub byte_lem :
      (fpg byte : ℕ)
      → listed frag (k + 1) (get_or free byte 0) ≡ true
      → (r : ℕ) × (sift_byte frag fpg free (k + 1) byte ≡ found r (r / 8 * 8))
        × IsFreeRun frag free (k + 1) r
  unfolding sift_byte sifted
  byte_lem fpg byte h =
      let (q, lt, ne) =
        some_run_sound frag (k + 1) (get_or free byte 0) (8 / frag)
          (sym (listed-some_run known (get_or free byte 0) k (bytes byte) size) ∙ h) in
      let (r, stops, run, own) = sift_lem byte 8 0 q (eight_lem known) (omega arith) lt ne in
      let base : byte * 8 + 0 * frag ≡ byte * 8 = omega arith in
      let stops = subst (λ t. sift frag (k + 1) free 8 (byte * 8 + 8) t ≡ some r) base stops in
      (r, ap (sifted (byte * 8)) stops ∙ ap (λ t. found r (t * 8)) (sym own), run)

  -- The byte of a run is listed.
  pub listed_lem :
      (bno : ℕ)
      → IsFreeRun frag free (k + 1) bno
      → listed frag (k + 1) (get_or free (bno / 8) 0) ≡ true
  listed_lem bno run =
      let byte = bno / 8 in
      let q = bno % 8 / frag in
      let (whole, lt, low) = split_lem bno known in
      listed-some_run known (get_or free byte 0) k (bytes byte) size
      ∙ some_run_complete frag (k + 1) (get_or free byte 0) (8 / frag) q lt (
          run_lem known free bytes byte q lt (k + 1) (bno % frag) (omega arith)
            (subst (IsFreeRun frag free (k + 1)) whole run) low)
