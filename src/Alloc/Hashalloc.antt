-- ===== src/Alloc/Hashalloc.antt =====
-- `ffs_hashalloc` of ufsX/ufs/ffs/ffs_alloc.c finds a group that can allocate.
use native.Mathlib.Nat.{mod-lt, mod-eq_of_lt, mod-eq-sub-mod}
use ufson_mac_os.Base.{
  ℕ, zero, suc, ◌+◌, ◌-◌, ◌*◌, ◌%◌, ◌≤◌, ◌<◌, ◌≡◌, ◌≢◌, ◌⊎◌, inl, inr, refl, sym, ap, subst, arith,
  true, false, Option, none, some,
}
use ufson_mac_os.Base.{ltb, if◌then◌else◌, Bool-cases}
use ufson_mac_os.Dirhash.{wrap_incr}
use ufson_mac_os.Dirhash.Probe.{turn, gap, turn_zero, turn_incr, turn-gap}
use ufson_mac_os.Alloc.{is_success, further, rehash, next_group, brute_force, hashalloc}

module _ {S : Type 0} (allocator : S → ℕ → ℕ → ℕ × S) (ncg : ℕ)
    (keeps : (s : S) (cg pref : ℕ) → (allocator s cg pref).0 ≡ 0 → (allocator s cg pref).1 ≡ s)
    (s : S) where
  -- Group `cg` cannot allocate without a preference.
  abbrev Fails : ℕ → Type 0
  Fails cg = (allocator s cg 0).0 ≡ 0

  -- The result comes from a group, in the state that the search began with.
  abbrev pub From : ℕ × S → Type 0
  From r = (cg : ℕ) × (cg < ncg) × (r ≡ allocator s cg 0) × (r.0 ≢ 0)

  failed : (r : ℕ × S) → is_success allocator ncg r ≡ false → r.0 ≡ 0
  failed r f = ground arith

  worked : (r : ℕ × S) → is_success allocator ncg r ≡ true → r.0 ≢ 0
  worked r t = ground arith

  further-lt : (cg i : ℕ) → cg < ncg → i < ncg → further allocator ncg cg i < ncg
  further-lt cg i low short = ground arith

  -- Success, or failure in the state that it began with; the first group tried has failed then.
  Rehashed : ℕ → ℕ → Option (ℕ × S) → Type 0
  Rehashed i next none = ⊥
  Rehashed i next (some r) = From r ⊎ ((r.0 ≡ 0) × (r.1 ≡ s) × (i < ncg → Fails next))

  weaken :
      (i next : ℕ) (j later : ℕ) (r : Option (ℕ × S))
      → Fails next
      → Rehashed j later r
      → Rehashed i next r
  unfolding Rehashed
  weaken i next j later none bad c = c
  weaken i next j later (some r) bad (inl from) = inl from
  weaken i next j later (some r) bad (inr (z, same, _)) = inr (z, same, λ lt. bad)

  rehash-Rehashed :
      (rounds i cg : ℕ) (last : ℕ × S)
      → 0 < i
      → cg < ncg
      → ncg - i < rounds
      → last.0 ≡ 0
      → last.1 ≡ s
      → Rehashed i (further allocator ncg cg i) (rehash allocator ncg rounds i cg last)
  unfolding rehash Rehashed
  rehash-Rehashed zero i cg last pos low many z same = absurd (omega arith)
  rehash-Rehashed (suc rounds) i cg last pos low many z same = elim (Bool-cases (ltb i ncg)) [
    | inr over ↦ rw over (inr (z, same, λ lt. absurd (ground arith)))
    | inl more ↦
        let short : i < ncg = ground arith in
        let next : ℕ = further allocator ncg cg i in
        let inside = further-lt cg i low short in
        let tried : allocator last.1 next 0 ≡ allocator s next 0 =
          ap (λ x. allocator x next 0) same in
        rw (more, tried)
          (elim (Bool-cases (is_success allocator ncg (allocator s next 0))) [
            | inl t ↦ rw t (inl (next, inside, refl, worked (allocator s next 0) t))
            | inr f ↦
                let bad = failed (allocator s next 0) f in
                rw f (
                  weaken i next (i * 2) (further allocator ncg next (i * 2)) _ bad (
                    rehash-Rehashed rounds (i * 2) next (allocator s next 0) (omega arith) inside
                      (omega arith) bad (keeps s next 0 bad)))
          ])
  ]

  brute_force_lem :
      (left cg : ℕ) (last : ℕ × S)
      → cg < ncg
      → left ≤ ncg
      → last.1 ≡ s
      → From (brute_force allocator ncg left cg last)
        ⊎ (((brute_force allocator ncg left cg last).0 ≡ 0)
            × ((k : ℕ) → k < left → Fails (turn ncg cg k)))
  unfolding brute_force
  brute_force_lem zero cg last low many same = inr (refl, λ k lt. absurd (omega arith))
  brute_force_lem (suc left) cg last low many same =
      let tried : allocator last.1 cg 0 ≡ allocator s cg 0 = ap (λ x. allocator x cg 0) same in
      rw (tried) (elim (Bool-cases (is_success allocator ncg (allocator s cg 0))) [
        | inl t ↦ rw t (inl (cg, low, refl, worked (allocator s cg 0) t))
        | inr f ↦
            let bad = failed (allocator s cg 0) f in
            rw f (
              one_more left cg _ low many bad (
                brute_force_lem left (next_group allocator ncg cg) (allocator s cg 0) (ground arith)
                  (omega arith) (keeps s cg 0 bad)))
      ])
    where
      one_more :
          (left cg : ℕ) (r : ℕ × S)
          → cg < ncg
          → suc left ≤ ncg
          → Fails cg
          → From r ⊎ ((r.0 ≡ 0) × ((k : ℕ) → k < left → Fails (turn ncg (wrap_incr ncg cg) k)))
          → From r ⊎ ((r.0 ≡ 0) × ((k : ℕ) → k < suc left → Fails (turn ncg cg k)))
      one_more left cg r low many bad (inl from) = inl from
      one_more left cg r low many bad (inr (z, all)) = inr (z, at_step)
        where
          at_step : (k : ℕ) → k < suc left → Fails (turn ncg cg k)
          at_step zero lt = subst Fails (sym (turn_zero ncg cg low)) bad
          at_step (suc k) lt =
              subst Fails (turn_incr ncg cg k low (omega arith)) (all k (omega arith))

  -- What `hashalloc` from group `icg` on gives.
  abbrev pub Searches : ℕ → ℕ → Option (ℕ × S) → Type 0
  Searches icg pref none = ⊥
  Searches icg pref (some r) =
      (((r ≡ allocator s icg pref) × (r.0 ≢ 0)) ⊎ From r)
      ⊎ ((r.0 ≡ 0)
          × ((allocator s icg pref).0 ≡ 0)
          × ((cg : ℕ) → cg < ncg → cg ≢ icg → (allocator s cg 0).0 ≡ 0))

  second : (icg : ℕ) → icg < ncg → 2 < ncg → (icg + 2) % ncg ≡ turn ncg icg 2
  second icg low many = elim (Bool-cases (ltb (icg + 2) ncg)) [
    | inl t ↦ rw t (mod-eq_of_lt (ground arith))
    | inr f ↦ rw f (wrapped (ground arith))
  ]
    where
      wrapped : ncg ≤ icg + 2 → (icg + 2) % ncg ≡ icg + 2 - ncg
      wrapped le = grind (arith, mod-eq-sub-mod, mod-eq_of_lt)

  -- Every other group is the next one or one of the brute force search.
  others :
      (icg : ℕ)
      → icg < ncg
      → (1 < ncg → Fails (further allocator ncg icg 1))
      → ((k : ℕ) → k < ncg - 2 → Fails (turn ncg ((icg + 2) % ncg) k))
      → (cg : ℕ) → cg < ncg
      → cg ≢ icg
      → Fails cg
  others icg low near far cg inside ne =
      by_gap (gap ncg icg cg) (turn-gap ncg icg cg low inside) refl
    where
      by_gap :
          (d : ℕ)
          → (gap ncg icg cg < ncg) × (turn ncg icg (gap ncg icg cg) ≡ cg)
          → gap ncg icg cg ≡ d
          → Fails cg
      by_gap zero whole e = absurd (ground (arith, whole))
      by_gap (suc zero) whole e = subst Fails (near_lem e) (near (omega arith))
        where
          near_lem : gap ncg icg cg ≡ 1 → further allocator ncg icg 1 ≡ cg
          near_lem e = ground arith
      by_gap (suc (suc k)) whole e = subst Fails (far_lem k e) (
          subst (λ g. Fails (turn ncg g k)) (second icg low (omega (arith, whole)))
            (far k (omega (arith, whole))))
        where
          far_lem : (k : ℕ) → gap ncg icg cg ≡ suc (suc k) → turn ncg (turn ncg icg 2) k ≡ cg
          far_lem k e = ground arith

  abbrev after_rehash : ℕ → Option (ℕ × S) → Option (ℕ × S)
  after_rehash icg r = elim r [
    | none ↦ none
    | some result ↦
        if is_success allocator ncg result
        then some result
        else some (brute_force allocator ncg (ncg - 2) ((icg + 2) % ncg) result)
  ]

  by_rehash :
      (icg pref : ℕ) (r : Option (ℕ × S))
      → icg < ncg
      → (allocator s icg pref).0 ≡ 0
      → Rehashed 1 (further allocator ncg icg 1) r
      → Searches icg pref (after_rehash icg r)
  unfolding Rehashed
  by_rehash icg pref none low bad c = c
  by_rehash icg pref (some r) low bad (inl from) = rw (succeeds r from.3) (inl (inr from))
    where
      succeeds : (r : ℕ × S) → r.0 ≢ 0 → is_success allocator ncg r ≡ true
      succeeds r ne = ground arith
  by_rehash icg pref (some r) low bad (inr (z, same, near)) = rw (fails r z) (
      by_force _ (
        brute_force_lem (ncg - 2) ((icg + 2) % ncg) r (mod-lt (icg + 2) (omega arith)) (omega arith)
          same))
    where
      fails : (r : ℕ × S) → r.0 ≡ 0 → is_success allocator ncg r ≡ false
      fails r z = ground arith

      by_force :
          (q : ℕ × S)
          → From q ⊎ ((q.0 ≡ 0) × ((k : ℕ) → k < ncg - 2 → Fails (turn ncg ((icg + 2) % ncg) k)))
          → Searches icg pref (some q)
      by_force q (inl from) = inl (inr from)
      by_force q (inr (zero_q, far)) = inr (zero_q, bad, others icg low near far)

  -- If an attempt that fails leaves the state as it was, ffs_hashalloc from a group of the file
  -- system ends, and either returns what one group allocates in that state, or returns 0 and every
  -- group has failed: the first with the preference, the others without. So it allocates whenever
  -- some group can.
  pub hashalloc-Searches :
      (icg pref : ℕ) → icg < ncg → Searches icg pref (hashalloc allocator ncg s icg pref)
  unfolding hashalloc
  hashalloc-Searches icg pref low =
      elim (Bool-cases (is_success allocator ncg (allocator s icg pref))) [
        | inl t ↦ rw t (inl (inl (refl, worked (allocator s icg pref) t)))
        | inr f ↦
            let bad = failed (allocator s icg pref) f in
            rw f (
              by_rehash icg pref _ low bad (
                rehash-Rehashed ncg 1 icg (allocator s icg pref) (omega arith) low (omega arith) bad
                  (keeps s icg pref bad)))
      ]
