-- ===== src/Super/Write/Order.antt =====
-- The order of the writes of `ffs_sbput` of ufsX/ufs/ffs/ffs_subr.c.
use ufson_mac_os.Base.{ℕ, zero, suc, ◌+◌, Option, none, some, List, [], ◌∷◌, ◌++◌}
use ufson_mac_os.Base.{◌≡◌, ◌⊎◌, refl, subst, inl, inr, ltb, take, drop, Bool-cases, ◌==◌}
use mathlib.Core.Option.{some-injective}
use ufson_mac_os.Super.{Fs, Errno, Summary}
use ufson_mac_os.Super.Read.Memory.{if_lem}
use ufson_mac_os.Super.Write.{summary, super, Log, Disk, Put, Store, stored, refused, stuck}
use ufson_mac_os.Super.Write.{
  on_write, store_size, store, put_space, put_summary, stamp, put_super, ffs_sbput,
}

module _ (d : Disk) where
  -- Each call wrote summary bytes, and succeeded.
  abbrev pub AllDone : Log → Type 0
  AllDone [] = Unit {0}
  AllDone ((loc, block) ∷ log) =
      ((bytes : List ℕ) × (block ≡ summary bytes) × (d.write loc block ≡ none)) × AllDone log

  -- The last call, after such a log, was refused.
  abbrev pub Refused : Errno → Log → Type 0
  Refused e log =
      (done : Log) × (loc : ℕ) × (bytes : List ℕ) × (log ≡ done ++ (loc, summary bytes) ∷ [])
      × AllDone done
      × (d.write loc (summary bytes) ≡ some e)

  AllDone-snoc :
      (log : Log) (loc : ℕ) (bytes : List ℕ)
      → AllDone log
      → d.write loc (summary bytes) ≡ none
      → AllDone (log ++ (loc, summary bytes) ∷ [])
  AllDone-snoc [] loc bytes h w = ((bytes, refl, w), tt)
  AllDone-snoc ((l, b) ∷ log) loc bytes h w = (h.0, AllDone-snoc log loc bytes h.1 w)

  abbrev Good : Store → Type 0
  Good stuck = Unit {0}
  Good (stored log) = AllDone log
  Good (refused e log) = Refused e log

  on_write-Good :
      (o : Option Errno) (log : Log) (loc : ℕ) (bytes : List ℕ) (rest : Log → Store)
      → d.write loc (summary bytes) ≡ o
      → AllDone log
      → ((l : Log) → AllDone l → Good (rest l))
      → Good (on_write o (log ++ (loc, summary bytes) ∷ []) rest)
  unfolding on_write
  on_write-Good none log loc bytes rest e h k = k _ (AllDone-snoc log loc bytes h e)
  on_write-Good (some err) log loc bytes rest e h k = (log, loc, bytes, refl, h, e)

  store-Good :
      (fs : Fs) (blks fuel i : ℕ) (space : List ℕ) (log : Log)
      → AllDone log
      → Good (store d fs blks fuel i space log)
  unfolding store
  store-Good fs blks zero i space log h = tt
  store-Good fs blks (suc fuel) i space log h = elim (Bool-cases (ltb i blks)) [
    | inl t ↦
        rw (t, store)
          (on_write-Good _ log _ (take (store_size d fs blks i) space) _ refl h (λ l k.
            store-Good fs blks fuel (i + fs.frag) (drop (store_size d fs blks i) space) l k))
    | inr f ↦ rw (f, store) h
  ]

  put_summary-Good : (fs : Fs) (si : Option Summary) → Good (put_summary d fs si [])
  unfolding put_summary put_space
  put_summary-Good fs none = tt
  put_summary-Good fs (some si) = go si.csp
    where
      go :
          (csp : Option (List ℕ))
          → Good (elim csp [ none ↦ stored [] | some space ↦ put_space d fs space [] ])
      go none = tt
      go (some space) = if_lem Good (fs.fsize == 0) _ _ tt (store-Good fs _ _ 0 space [] tt)

  -- How a call ends.
  abbrev pub Ordered : Fs → ℕ → Put → Type 0
  Ordered fs loc p =
      ((e : Errno) × (p.error ≡ some e) × Refused e p.log × (p.fs ≡ fs))
      ⊎ ((done : Log) × (p.log ≡ done ++ (loc, super (stamp d fs)) ∷ [])
          × AllDone done
          × (p.error ≡ d.write loc (super (stamp d fs))))

  put_super-Ordered :
      (fs : Fs) (loc : ℕ) (s : Store) (p : Put)
      → Good s
      → put_super d fs loc s ≡ some p
      → Ordered fs loc p
  unfolding put_super
  put_super-Ordered fs loc stuck p g e = absurd (cc)
  put_super-Ordered fs loc (stored log) p g e =
      subst (Ordered fs loc) (some-injective _ _ e) (inr (log, refl, g, refl))
  put_super-Ordered fs loc (refused err log) p g e =
      subst (Ordered fs loc) (some-injective _ _ e) (inl (err, refl, g, refl))

  pub ffs_sbput-Ordered :
      (fs : Fs) (loc : ℕ) (p : Put) → ffs_sbput d fs loc [] ≡ some p → Ordered fs loc p
  unfolding ffs_sbput
  ffs_sbput-Ordered fs loc p =
      put_super-Ordered fs loc (put_summary d fs fs.si []) p (put_summary-Good fs fs.si)
