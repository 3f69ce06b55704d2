-- ===== src/Dirhash/Probe.antt =====
-- The probes of ufsX/ufs/ufs/ufs_dirhash.c: where a loop over the slots stops.
use ufson_mac_os.Base.{
  ℕ, zero, suc, ◌+◌, ◌-◌, ◌≤◌, ◌<◌, Bool, true, false, Option, some, List, ◌≡◌, sym, ap, subst, ◌∙◌,
  arith, inl, inr,
}
use ufson_mac_os.Base.{ltb, if◌then◌else◌, Bool-cases}
use ufson_mac_os.Dirhash.{Entry, entry, wrap_incr, wrap_decr, scan}

-- The slot that is `k` steps after slot `i`, for `k` at most the number of slots.
abbrev pub turn : ℕ → ℕ → ℕ → ℕ
turn limit i k = if ltb (i + k) limit then i + k else i + k - limit

pub turn_zero : (limit i : ℕ) → i < limit → turn limit i 0 ≡ i
turn_zero limit i low = ground arith

pub turn_incr :
    (limit i k : ℕ)
    → i < limit
    → k < limit
    → turn limit (wrap_incr limit i) k ≡ turn limit i (suc k)
turn_incr limit i k low short = ground arith

pub turn-lt : (limit i k : ℕ) → i < limit → k < limit → turn limit i k < limit
turn-lt limit i k low short = ground arith

-- The steps from slot `i` on to slot `s`.
abbrev pub gap : ℕ → ℕ → ℕ → ℕ
gap limit i s = if ltb s i then s + limit - i else s - i

pub turn-gap :
    (limit i s : ℕ)
    → i < limit
    → s < limit
    → (gap limit i s < limit) × (turn limit i (gap limit i s) ≡ s)
turn-gap limit i s low at = ground arith

pub incr-turn :
    (limit i k : ℕ)
    → i < limit
    → suc k < limit
    → wrap_incr limit (turn limit i k) ≡ turn limit i (suc k)
incr-turn limit i k low short = ground arith

pub incr-decr : (limit i : ℕ) → i < limit → wrap_incr limit (wrap_decr limit i) ≡ i
incr-decr limit i low = ground arith

pub decr-lt : (limit i : ℕ) → i < limit → wrap_decr limit i < limit
decr-lt limit i low = ground arith

pub gap-turn : (limit i k : ℕ) → i < limit → k < limit → gap limit i (turn limit i k) ≡ k
gap-turn limit i k low short = ground arith

-- The loop stops `steps` slots after slot `i`, and not before.
pub record Stops (hash : List Entry) (limit : ℕ) (stop : Entry → Bool) (i steps : ℕ) (r : Option ℕ)
    : Type 0 where
  pub result : r ≡ some (turn limit i steps)
  pub stopped : stop (entry hash (turn limit i steps)) ≡ true
  pub before : (j : ℕ) → j < steps → stop (entry hash (turn limit i j)) ≡ false

module _ (hash : List Entry) (limit : ℕ) (stop : Entry → Bool) where
  one_more :
      (i steps : ℕ) (r : Option ℕ)
      → i < limit
      → suc steps < limit
      → stop (entry hash i) ≡ false
      → Stops hash limit stop (wrap_incr limit i) steps r
      → Stops hash limit stop i (suc steps) r
  one_more i steps r low short miss s = record {
    result = s.result ∙ ap some (turn_incr limit i steps low (omega arith));
    stopped =
        subst (λ x. stop (entry hash x) ≡ true) (turn_incr limit i steps low (omega arith))
          s.stopped;
    before = λ j lt. earlier j lt;
  }
    where
      earlier : (j : ℕ) → j < suc steps → stop (entry hash (turn limit i j)) ≡ false
      earlier zero lt = rw (turn_zero limit i low) miss
      earlier (suc j) lt =
          subst (λ x. stop (entry hash x) ≡ false) (turn_incr limit i j low (omega arith))
            (s.before j (omega arith))

  at_once : (i : ℕ) → i < limit → stop (entry hash i) ≡ true → Stops hash limit stop i 0 (some i)
  at_once i low t = record {
    result = ap some (sym (turn_zero limit i low));
    stopped = rw (turn_zero limit i low) t;
    before = λ j lt. absurd (omega arith);
  }

  -- A loop that has a slot to stop at within its rounds stops there or earlier.
  pub scan-Stops :
      (rounds i k : ℕ)
      → i < limit
      → k < limit
      → k < rounds
      → stop (entry hash (turn limit i k)) ≡ true
      → (steps : ℕ) × (steps ≤ k) × Stops hash limit stop i steps (scan rounds hash limit stop i)
  unfolding scan
  scan-Stops zero i k low short few hit = absurd (omega arith)
  scan-Stops (suc rounds) i zero low short few hit =
      let here = subst (λ x. stop (entry hash x) ≡ true) (turn_zero limit i low) hit in
      rw here (0, omega arith, at_once i low here)
  scan-Stops (suc rounds) i (suc k) low short few hit = elim (Bool-cases (stop (entry hash i))) [
    | inl t ↦ rw t (0, omega arith, at_once i low t)
    | inr f ↦
        let there =
          subst (λ x. stop (entry hash x) ≡ true) (sym (turn_incr limit i k low (omega arith)))
            hit in
        let next =
          scan-Stops rounds (wrap_incr limit i) k (ground arith) (omega arith) (omega arith)
            there in
        rw f (
          suc next.0,
          omega (arith, next.1),
          one_more i next.0 _ low (omega (arith, next.1)) f next.2,
        )
  ]
