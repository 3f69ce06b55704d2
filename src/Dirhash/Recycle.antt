-- ===== src/Dirhash/Recycle.antt =====
-- `ufsdirhash_recycle` of ufsX/ufs/ufs/ufs_dirhash.c on the list of all hashes. What the lock of a
-- hash answers stands with it. The memory in use counts that of the hashes on the list.
use ufson_mac_os.Base.{
  ℕ, zero, suc, ◌+◌, ◌-◌, ◌<◌, ◌≤◌, Bool, true, false, Option, none, some, List, [], ◌∷◌, ◌≡◌, refl,
  arith, inl, inr, ap,
}
use ufson_mac_os.Base.{ltb, leb, if◌then◌else◌, length, Bool-cases}

-- A hash on the list: `dh_score`, where 0 stands for what is below 0 too, `dh_memreq`, and whether `sx_try_xlock` gets its lock.
pub record OnList : Type 0 where
  pub score : ℕ
  pub memreq : ℕ
  pub is_free : Bool

-- `ufs_dirhashmem` and `ufsdirhash_list`
pub record Memory : Type 0 where
  pub used : ℕ
  pub hashes : List OnList

-- A hash whose score is still positive stops the visit; one that is in use is passed by.
abbrev pub visited :
    OnList → List OnList → Option OnList × List OnList → Bool → Bool → Option OnList × List OnList
visited h hs rest tough free =
    let tired = record h { score = h.score - 1 } in
    if tough then (none, tired ∷ hs) else if free then (some h, hs) else (rest.0, tired ∷ rest.1)

-- A visit of the list from its head on: the hash that is destroyed, or none, and the list after.
pub visit : List OnList → Option OnList × List OnList
visit [] = (none, [])
visit (h ∷ hs) = visited h hs (visit hs) (ltb 1 h.score) h.is_free

-- What a round of the loop leads to; `rest` goes on.
abbrev pub destroyed :
    (Memory → Option (Bool × Memory)) → ℕ → Option OnList × List OnList → Option (Bool × Memory)
destroyed rest used (none, hashes) = some (false, record { used = used; hashes = hashes })
destroyed rest used (some h, hashes) = rest (record { used = used - h.memreq; hashes = hashes })

-- `true` is a return of 0. A round more than there are hashes is enough.
pub recycle : ℕ → ℕ → ℕ → Memory → Option (Bool × Memory)
recycle zero wanted maxmem m = none
recycle (suc rounds) wanted maxmem m =
    let rest = recycle rounds wanted maxmem in
    if leb (wanted + m.used) maxmem then some (true, m) else destroyed rest m.used (visit m.hashes)

-- A hash that is destroyed leaves the list.
visit-length :
    (hs : List OnList) (h : OnList) (left : List OnList)
    → visit hs ≡ (some h, left)
    → length left < length hs
unfolding visit
visit-length [] h left e = absurd (let clash = ap (λ r. r.0) e in cc)
visit-length (g ∷ gs) h left e =
    by_score (visit-length gs h (visit gs).1) (ltb 1 g.score) g.is_free e
  where
    pair_lem : (r : Option OnList × List OnList) → r.0 ≡ some h → r ≡ (some h, r.1)
    pair_lem (o, l) is = ap (λ x. (x, l)) is

    by_score :
        (visit gs ≡ (some h, (visit gs).1) → length (visit gs).1 < length gs)
        → (tough free : Bool) → visited g gs (visit gs) tough free ≡ (some h, left)
        → length left < suc (length gs)
    by_score later true free q = absurd (let clash = ap (λ r. r.0) q in cc)
    by_score later false true q = let same = ap (λ r. length r.1) q in omega (arith, same)
    by_score later false false q =
        let shorter = later (pair_lem (visit gs) (ap (λ r. r.0) q)) in
        let same = ap (λ r. length r.1) q in omega (arith, same, shorter)

-- How `ufsdirhash_recycle` ends: with room for the memory that is wanted, or with the hashes left
-- still too large; nothing is done where there was room.
abbrev pub Recycles : ℕ → ℕ → Memory → Option (Bool × Memory) → Type 0
Recycles wanted maxmem m none = ⊥
Recycles wanted maxmem m (some (true, n)) =
    (wanted + n.used ≤ maxmem) × (n.used ≤ m.used) × (wanted + m.used ≤ maxmem → n ≡ m)
Recycles wanted maxmem m (some (false, n)) = (maxmem < wanted + n.used) × (n.used ≤ m.used)

pub recycle-Recycles :
    (rounds wanted maxmem : ℕ) (m : Memory)
    → length m.hashes < rounds
    → Recycles wanted maxmem m (recycle rounds wanted maxmem m)
unfolding recycle
recycle-Recycles zero wanted maxmem m enough = absurd (omega arith)
recycle-Recycles (suc rounds) wanted maxmem m enough =
    elim (Bool-cases (leb (wanted + m.used) maxmem)) [
      | inl t ↦
          let fits : wanted + m.used ≤ maxmem = ground arith in rw t (fits, omega arith, λ h. refl)
      | inr f ↦
          let over : maxmem < wanted + m.used = ground arith in
          rw f (by_visit over (recycle-Recycles rounds wanted maxmem) (visit m.hashes) refl)
    ]
  where
    weaken :
        (n : Memory) (r : Option (Bool × Memory))
        → n.used ≤ m.used
        → maxmem < wanted + m.used
        → Recycles wanted maxmem n r
        → Recycles wanted maxmem m r
    weaken n none less over is = is
    weaken n (some (true, k)) less over (fits, le, same) =
        (fits, omega (arith, le, less), λ h. absurd (omega (arith, over, h)))
    weaken n (some (false, k)) less over (big, le) = (big, omega (arith, le, less))

    by_visit :
        maxmem < wanted + m.used
        → ((n : Memory)
            → length n.hashes < rounds
            → Recycles wanted maxmem n (recycle rounds wanted maxmem n))
        → (r : Option OnList × List OnList) → visit m.hashes ≡ r
        → Recycles wanted maxmem m (destroyed (recycle rounds wanted maxmem) m.used r)
    by_visit over again (none, hashes) e = (over, omega arith)
    by_visit over again (some h, hashes) e =
        let shorter = visit-length m.hashes h hashes e in
        let left : Memory = record { used = m.used - h.memreq; hashes = hashes } in
        weaken left _ (omega arith) over (again left (omega (arith, shorter, enough)))
