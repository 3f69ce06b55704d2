-- ===== src/Dirhash/Build/Enter.antt =====
-- One entry of `ufsdirhash_build` of ufsX/ufs/ufs/ufs_dirhash.c.
use ufson_mac_os.Base.{ℕ, ◌+◌, ◌<◌, true, false, not, some, ◌≡◌, refl, arith, sym, subst, ap}
use ufson_mac_os.Base.{if◌then◌else◌, set}
use ufson_mac_os.Dirhash.{Entry, empty, del, at, Dirhash, Name, entry, is_empty, is_offset, hash}
use ufson_mac_os.Dirhash.Probe.{turn, gap, gap-turn, turn-lt, scan-Stops}
use ufson_mac_os.Dirhash.Valid.{in_use, IsTable, Holds, empty_ahead}
use ufson_mac_os.Dirhash.Insert.{insert-IsTable, InTable-insert}
use ufson_mac_os.Dirhash.Insert.Add.{Adds}
use ufson_mac_os.Dirhash.Words.Indexed.{IsIndexed}
use ufson_mac_os.Dirhash.Build.{enter}

bare : (e : Entry) → is_empty e ≡ true → is_offset e ≡ false
bare empty h = refl
bare del h = cc
bare (at o) h = cc

-- The first empty slot after the home of an offset gets the offset.
pub enter-Adds :
    (fnv : Name → ℕ) (dh : Dirhash) (home : ℕ → ℕ) (name : Name) (o : ℕ)
    → IsTable dh.hash dh.hlen dh.hused home
    → dh.hused < dh.hlen
    → ¬ Holds dh o
    → home o ≡ hash fnv dh name
    → (new : Dirhash) × (enter fnv dh name o ≡ some new)
      × Adds dh new home o
      × (IsIndexed dh → IsIndexed new)
      × (new.dirblks ≡ dh.dirblks)
unfolding enter
enter-Adds fnv dh home name o t room fresh named =
    let free = empty_ahead t room (home o) (t.homes o) in
    let z =
      scan-Stops dh.hash dh.hlen is_empty dh.hlen (home o) free.0 (t.homes o) free.1 free.1
        free.2 in
    let short : z.0 < dh.hlen = omega (arith, z.1, free.1) in
    let slot : ℕ = turn dh.hlen (home o) z.0 in
    let low = turn-lt dh.hlen (home o) z.0 (t.homes o) short in
    let distance = gap-turn dh.hlen (home o) z.0 (t.homes o) short in
    let taken = bare (entry dh.hash slot) z.2.stopped in
    let path : (j : ℕ)
        → j < gap dh.hlen (home o) slot
        → in_use dh.hash (turn dh.hlen (home o) j) ≡ true =
      λ j lt. ap not (z.2.before j (omega (arith, distance))) in
    let counted : (if is_empty (entry dh.hash slot) then dh.hused + 1 else dh.hused)
        ≡ dh.hused + 1 =
      (rw (z.2.stopped) refl) in
    rw (sym named, z.2.result)
      (
        _,
        refl,
        record {
          valid =
              subst (λ u. IsTable (set dh.hash slot (at o)) dh.hlen u home) counted
                (insert-IsTable t slot o low fresh taken path);
          same_size = refl;
          one_more = omega arith;
          holds = InTable-insert t slot o low fresh taken path;
        },
        λ x. record { classes = x.classes; blocks = x.blocks; within = x.within; first = x.first },
        refl,
      )
