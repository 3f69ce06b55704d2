-- ===== src/Alloc/Mapsearch/Sift.antt =====
-- What a free run of fragments is, and the loop of `ffs_mapsearch` over the blocks of a byte that holds one.
use ufson_mac_os.Base.{ℕ, ◌+◌, ◌-◌, ◌*◌, ◌/◌, ◌%◌, ◌<◌, ◌≤◌, true, false, none, some, List}
use ufson_mac_os.Base.{◌≡◌, ◌≢◌, ap, subst, sym, ◌∙◌, refl, arith, ==_iff, get_or}
use ufson_mac_os.Base.Bits.{all_below_sound, all_below_complete}
use ufson_mac_os.Base.Count.{count_below_pos}
use ufson_mac_os.Ffs.Block.Bytes.{bit, isset}
use ufson_mac_os.Ffs.Block.Fragments.{IsFrag, AreBytes, frag_cases}
use ufson_mac_os.Ffs.Fragacct.Runs.{is_run, runs}
use ufson_mac_os.Alloc.Mapsearch.{place_in, blkmap}
use ufson_mac_os.Alloc.Mapsearch.Byte.{
  block_bits, gives_run, gives-run, block_bits-lt, bit-block_bits, block_fits,
}

-- The fragments from `bno` on, `siz` of them, are free and of one block, and those next to them in the
-- block are not free.
pub record IsFreeRun (frag : ℕ) (free : List ℕ) (siz bno : ℕ) : Type 0 where
  pub one_block : bno % frag + siz ≤ frag
  pub all_free : (k : ℕ) → k < siz → isset free (bno + k) ≡ true
  pub before : 0 < bno % frag → isset free (bno - 1) ≡ false
  pub after : bno % frag + siz < frag → isset free (bno + siz) ≡ false

-- A run of the block that has the bits `m`, in one statement for each part.
record IsRun (frag m s p : ℕ) : Type 0 where
  fits : p + s ≤ frag
  ones : (k : ℕ) → k < s → bit m (p + k) ≡ true
  below : 0 < p → bit m (p - 1) ≡ false
  above : p + s < frag → bit m (p + s) ≡ false

is_run_sound : (frag m s p : ℕ) → is_run frag m s p ≡ true → IsRun frag m s p
is_run_sound frag m s p h = record {
  fits = ground arith;
  ones = λ k lt. all_below_sound s (λ k. bit m (p + k)) k (ground arith) lt;
  below = λ pos. ground arith;
  above = λ room. ground arith;
}

is_run_complete : (frag m s p : ℕ) → IsRun frag m s p → is_run frag m s p ≡ true
is_run_complete frag m s p run =
    let all = all_below_complete s (λ k. bit m (p + k)) run.ones in
    let low = run.below in
    let high = run.above in let within = run.fits in ground (arith, all, low, high, within)

offset_lem :
    {frag : ℕ} (byte q p : ℕ) → IsFrag frag → p < frag → (byte * 8 + q * frag + p) % frag ≡ p
offset_lem byte q p known =
    frag_cases (λ f. p < f → (byte * 8 + q * f + p) % f ≡ p) known (λ lt. omega arith)
      (λ lt. omega arith) (λ lt. omega arith) (λ lt. omega arith)

module _ {frag : ℕ} (known : IsFrag frag) (free : List ℕ) (bytes : AreBytes free) (byte q : ℕ)
    (below : q < 8 / frag) where
  abbrev bits : ℕ
  bits = block_bits frag (get_or free byte 0) q

  pub blkmap_lem : blkmap frag free (byte * 8 + q * frag) ≡ bits
  unfolding blkmap
  blkmap_lem =
      let fits = block_fits q known below in
      let over : (byte * 8 + q * frag) / 8 ≡ byte = omega arith in
      let rest : (byte * 8 + q * frag) % 8 ≡ q * frag = omega arith in rw (over, rest) refl

  isset_lem : (j : ℕ) → j < frag → isset free (byte * 8 + q * frag + j) ≡ bit bits j
  isset_lem j lt =
      let fits = block_fits q known below in
      let over : (byte * 8 + q * frag + j) / 8 ≡ byte = omega arith in
      let rest : (byte * 8 + q * frag + j) % 8 ≡ q * frag + j = omega arith in
      rw (over, rest, bit-block_bits known (get_or free byte 0) q j (bytes byte) below lt) refl

  start_lem : (p : ℕ) → p < frag → (byte * 8 + q * frag + p) % frag ≡ p
  start_lem p lt = offset_lem byte q p known lt

  from_bits :
      (s p : ℕ) → 0 < s → IsRun frag bits s p → IsFreeRun frag free s (byte * 8 + q * frag + p)
  from_bits s p pos run =
      let fits = run.fits in
      let at = start_lem p (omega arith) in
      let move : (k : ℕ) → byte * 8 + q * frag + p + k ≡ byte * 8 + q * frag + (p + k) =
        λ k. omega arith in
      record {
        one_block = rw at fits;
        all_free = λ k lt. rw (move k, isset_lem (p + k) (omega arith)) (run.ones k lt);
        before = λ low.
            let low : 0 < p = omega (arith, at, low) in
            let back : byte * 8 + q * frag + p - 1 ≡ byte * 8 + q * frag + (p - 1) = omega arith in
            rw (back, isset_lem (p - 1) (omega arith)) (run.below low);
        after = λ room.
            let room : p + s < frag = omega (arith, at, room) in
            rw (move s, isset_lem (p + s) room) (run.above room);
      }

  to_bits :
      (s p : ℕ)
      → 0 < s
      → p < frag
      → IsFreeRun frag free s (byte * 8 + q * frag + p)
      → IsRun frag bits s p
  to_bits s p pos lt run =
      let at = start_lem p lt in
      let fits : p + s ≤ frag = omega (arith, at, run.one_block) in
      let move : (k : ℕ) → byte * 8 + q * frag + p + k ≡ byte * 8 + q * frag + (p + k) =
        λ k. omega arith in
      record {
        fits = fits;
        ones = λ k low.
            sym (isset_lem (p + k) (omega arith))
            ∙ ap (isset free) (sym (move k))
            ∙ run.all_free k low;
        below = λ low.
            let back : byte * 8 + q * frag + (p - 1) ≡ byte * 8 + q * frag + p - 1 = omega arith in
            sym (isset_lem (p - 1) (omega arith)) ∙ ap (isset free) back ∙ run.before (rw at low);
        above = λ room.
            sym (isset_lem (p + s) room) ∙ ap (isset free) (sym (move s)) ∙ run.after (rw at room);
      }

  -- The pattern loop over this block.
  pub place_lem :
      (k p : ℕ)
      → k < frag
      → place_in frag (k + 1) bits ≡ some p
      → IsFreeRun frag free (k + 1) (byte * 8 + q * frag + p)
        × ((byte * 8 + q * frag + p) / 8 ≡ byte)
  place_lem k p lt e =
      let run = is_run_sound frag bits (k + 1) p (
        subst (λ o. gives_run frag (k + 1) bits o ≡ true) e
          (gives-run known bits k (block_bits-lt known (get_or free byte 0) q (bytes byte) below)
            lt)) in
      let fits = run.fits in
      let room = block_fits q known below in (from_bits (k + 1) p (omega arith) run, omega arith)

  pub place-none :
      (k : ℕ) → k < frag → place_in frag (k + 1) bits ≡ none → runs frag bits (k + 1) ≡ 0
  place-none k lt e = (==_iff _ _).0 (
      subst (λ o. gives_run frag (k + 1) bits o ≡ true) e
        (gives-run known bits k (block_bits-lt known (get_or free byte 0) q (bytes byte) below) lt))

  pub run_lem :
      (s p : ℕ)
      → 0 < s
      → IsFreeRun frag free s (byte * 8 + q * frag + p)
      → p < frag
      → runs frag bits s ≢ 0
  unfolding runs
  run_lem s p pos run lt e =
      let member = is_run_complete frag bits s p (to_bits s p pos lt run) in
      let some_ = count_below_pos frag p (is_run frag bits s) lt member in omega arith
