-- ===== src/Alloc/Mapsearch/Found.antt =====
-- The search of `ffs_mapsearch` as a whole, with its two passes over the map.
use ufson_mac_os.Base.{ℕ, zero, suc, ◌+◌, ◌-◌, ◌*◌, ◌/◌, ◌%◌, ◌<◌, ◌≤◌, true, false, List, inl, inr}
use ufson_mac_os.Base.{◌≡◌, arith, ltb, ◌==◌, Bool-cases, get_or}
use native.Mathlib.Nat.{mod-lt}
use ufson_mac_os.Super.{howmany}
use ufson_mac_os.Ffs.Block.Bytes.{isset}
use ufson_mac_os.Ffs.Block.Fragments.{IsFrag, AreBytes}
use ufson_mac_os.Alloc.Mapsearch.{
  Search, found, scan_from, sift_byte, from_top, from_start, start_byte, mapsearch,
}
use ufson_mac_os.Alloc.Mapsearch.Byte.{listed}
use ufson_mac_os.Alloc.Mapsearch.Sift.{IsFreeRun}
use ufson_mac_os.Alloc.Mapsearch.Scan.{scanc_lem, byte_lem, listed_lem}

start_byte-lt :
    (frag fpg : ℕ) (free : List ℕ) (siz frotor bpref : ℕ)
    → frotor < fpg
    → start_byte frag fpg free siz frotor bpref < howmany fpg 8
start_byte-lt frag fpg free siz frotor bpref rotor = elim (Bool-cases (bpref == 0)) [
  | inl e ↦ rw e (omega arith)
  | inr e ↦ let low : bpref % fpg < fpg = mod-lt bpref (omega arith) in rw e (omega arith)
]

-- The search gives a run of the group, and the rotor the first fragment of its byte.
abbrev pub Finds : ℕ → ℕ → List ℕ → ℕ → Search → Type 0
Finds frag fpg free siz result =
    (bno : ℕ) × (result ≡ found bno (bno / 8 * 8)) × IsFreeRun frag free siz bno × (bno + siz ≤ fpg)

module _ {frag : ℕ} (known : IsFrag frag) (fpg : ℕ) (free : List ℕ) (bytes : AreBytes free)
    (clear : (i : ℕ) → fpg ≤ i → isset free i ≡ false) (k : ℕ) (size : k < frag) where
  within : (bno : ℕ) → IsFreeRun frag free (k + 1) bno → bno + (k + 1) ≤ fpg
  within bno run = elim (Bool-cases (ltb (bno + k) fpg)) [
    | inl e ↦ ground arith
    | inr e ↦
        let over : fpg ≤ bno + k = ground arith in
        let set_ = run.all_free k (omega arith) in
        let unset = clear (bno + k) over in absurd (ground arith)
  ]

  sift-Finds :
      (byte : ℕ)
      → listed frag (k + 1) (get_or free byte 0) ≡ true
      → Finds frag fpg free (k + 1) (sift_byte frag fpg free (k + 1) byte)
  sift-Finds byte h =
      let (r, e, run) = byte_lem known free bytes k size fpg byte h in (r, e, run, within r run)

  module _ (bno : ℕ) (run : IsFreeRun frag free (k + 1) bno) where
    top_lem :
        (len : ℕ)
        → bno / 8 < len
        → Finds frag fpg free
            (k + 1)
            (from_top frag fpg free (k + 1) len (scan_from frag fpg free (k + 1) len 0))
    top_lem len lt = elim (scanc_lem known free bytes k size len 0) [
      | inl (stop, rest) ↦
          let none_ = rest (bno / 8) (omega arith) (omega arith) in
          let hit = listed_lem known free bytes k size bno run in absurd (ground arith)
      | inr (pos, low, hit) ↦
          let some_ : (scan_from frag fpg free (k + 1) len 0 == 0) ≡ false = ground arith in
          let none_ : 0 + len ≡ len = omega arith in
          rw some_ (sift-Finds (len - scan_from frag fpg free (k + 1) len 0) (rw none_ at hit))
    ]

    search_lem :
        (frotor bpref : ℕ)
        → frotor < fpg
        → Finds frag fpg free (k + 1) (mapsearch frag fpg free (k + 1) frotor bpref)
    unfolding mapsearch from_start
    search_lem frotor bpref rotor =
        let start = start_byte frag fpg free (k + 1) frotor bpref in
        let len = howmany fpg 8 - start in
        let low : start < howmany fpg 8 = start_byte-lt frag fpg free (k + 1) frotor bpref rotor in
        elim (scanc_lem known free bytes k size len start) [
          | inl (stop, rest) ↦ rw stop (
              top_lem (start + 1) (elim (Bool-cases (ltb (bno / 8) (start + 1))) [
                | inl e ↦ ground arith
                | inr e ↦
                    let over : start ≤ bno / 8 = ground arith in
                    let inside : bno / 8 < start + len = omega (arith, within bno run) in
                    let none_ = rest (bno / 8) over inside in
                    let hit = listed_lem known free bytes k size bno run in absurd (ground arith)
              ]))
          | inr (pos, few, hit) ↦
              let some_ : (scan_from frag fpg free (k + 1) len start == 0) ≡ false = ground arith in
              rw some_ (sift-Finds (start + len - scan_from frag fpg free (k + 1) len start) hit)
        ]

module _ {frag : ℕ} (fpg : ℕ) (free : List ℕ) (known : IsFrag frag) (bytes : AreBytes free)
    (clear : (i : ℕ) → fpg ≤ i → isset free i ≡ false) where
  -- For a map of bytes with no bit set past the fragments of the group, and a rotor in the group:
  -- if some block has a run of exactly the wanted number of free fragments, then ffs_mapsearch does
  -- not panic, whatever the preference is. It gives the first fragment of such a run, within one
  -- block and within the group, and the new rotor is the first fragment of the byte that the run
  -- starts in.
  pub mapsearch-Finds :
      (allocsiz frotor bpref bno : ℕ)
      → 1 ≤ allocsiz
      → allocsiz ≤ frag
      → frotor < fpg
      → IsFreeRun frag free allocsiz bno
      → Finds frag fpg free allocsiz (mapsearch frag fpg free allocsiz frotor bpref)
  mapsearch-Finds zero frotor bpref bno lo hi rotor run = absurd (omega arith)
  mapsearch-Finds (suc k) frotor bpref bno lo hi rotor run =
      let e : suc k ≡ k + 1 = omega arith in
      rw e
        (search_lem known fpg free bytes clear k (omega arith) bno (rw e at run) frotor bpref rotor)
