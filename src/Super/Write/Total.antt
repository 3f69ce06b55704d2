-- ===== src/Super/Write/Total.antt =====
-- How the calls of `ffs_sbput` of ufsX/ufs/ffs/ffs_subr.c and `sbput` of libufs/sblock.c end.
use ufson_mac_os.Base.{
  ℕ, zero, suc, ◌+◌, ◌-◌, ◌*◌, ◌<◌, true, false, Option, none, some, List, [], Bool-cases, ltb,
  drop,
}
use ufson_mac_os.Base.{◌≡◌, ◌≢◌, ◌⊎◌, refl, sym, ap, subst, arith, ◌==◌, inl, inr}
use ufson_mac_os.Super
use ufson_mac_os.Super.Read.Memory.{if_lem}
use ufson_mac_os.Super.{Fs, Errno, Summary}
use ufson_mac_os.Super.Write.{
  Disk, Put, Log, Store, stored, refused, stuck, on_write, store, put_space, put_summary, put_super,
  ffs_sbput,
}
use ufson_mac_os.Super.Write.{
  store_size, finish, with_si, after_first, next_alternate, alternates, with_alternates, set_csp,
  sbput,
}
use ufson_mac_os.Super.Write.Order.{Ordered, ffs_sbput-Ordered}
use ufson_mac_os.Super.Write.Restore.{Stamped, ffs_sbput-Stamped, sbput-Stamped}

-- What a loop gives when it is not out of fuel.
abbrev Stops : Store → Type 0
Stops stuck = ⊥
Stops (stored log) = Unit
Stops (refused e log) = Unit

abbrev Returns : Option Put → Type 0
Returns o = (p : Put) × (o ≡ some p)

-- A fragment has a size, and a block has fragments.
abbrev pub HasFrags : Fs → Type 0
HasFrags fs = (0 < fs.frag) × (0 < fs.fsize)

module _ (d : Disk) where
  on_write-Stops :
      (o : Option Errno) (log : Log) (rest : Log → Store)
      → ((l : Log) → Stops (rest l))
      → Stops (on_write o log rest)
  unfolding on_write
  on_write-Stops none log rest h = h log
  on_write-Stops (some e) log rest h = tt

  store-Stops :
      (fs : Fs) (blks fuel i : ℕ) (space : List ℕ) (log : Log)
      → 0 < fs.frag
      → blks - i < fuel
      → Stops (store d fs blks fuel i space log)
  unfolding store
  store-Stops fs blks zero i space log f h = absurd (omega arith)
  store-Stops fs blks (suc fuel) i space log f h = elim (Bool-cases (ltb i blks)) [
    | inl t ↦
        let lt : i < blks = ground arith in
        rw (t, store)
          (on_write-Stops _ _ _ (λ l.
            store-Stops fs blks fuel (i + fs.frag) (drop (store_size d fs blks i) space) l f
              (omega arith)))
    | inr e ↦ rw (e, store) tt
  ]

  put_summary-Stops :
      (fs : Fs) (si : Option Summary) (log : Log) → HasFrags fs → Stops (put_summary d fs si log)
  unfolding put_summary put_space
  put_summary-Stops fs none log f = tt
  put_summary-Stops fs (some si) log f = go si.csp
    where
      go :
          (csp : Option (List ℕ))
          → Stops (elim csp [ none ↦ stored log | some space ↦ put_space d fs space log ])
      go none = tt
      go (some space) =
          let divides : fs.fsize == 0 ≡ false = (let pos = f.1 in ground arith) in
          rw (divides, put_space)
            (store-Stops fs (Super.howmany fs.cssize fs.fsize) _ 0 space log f.0 (omega arith))

  put_super-Returns : (fs : Fs) (loc : ℕ) (s : Store) → Stops s → Returns (put_super d fs loc s)
  unfolding put_super
  put_super-Returns fs loc stuck h = absurd h
  put_super-Returns fs loc (stored log) h = (_, refl)
  put_super-Returns fs loc (refused e log) h = (_, refl)

  ffs_sbput-Returns :
      (fs : Fs) (loc : ℕ) (log : Log) → HasFrags fs → Returns (ffs_sbput d fs loc log)
  unfolding ffs_sbput
  ffs_sbput-Returns fs loc log f = put_super-Returns fs loc _ (put_summary-Stops fs fs.si log f)

  -- A stamped record has as many fragments.
  HasFrags-Stamped : (f g : Fs) → Stamped f g → HasFrags f → HasFrags g
  HasFrags-Stamped f g s h = subst HasFrags (sym s) h

  next_alternate-Returns :
      (g : Fs) (o : Option Put) (rest : Fs → Log → Option Put)
      → HasFrags g
      → Returns o
      → ((p : Put) → o ≡ some p → Stamped g p.fs)
      → ((x : Fs) (log : Log) → HasFrags x → Returns (rest x log))
      → Returns (next_alternate d o rest)
  unfolding next_alternate
  next_alternate-Returns g none rest f r s k = absurd (let (p, e) = r in cc)
  next_alternate-Returns g (some q) rest f r s k = go q.error
    where
      go : (o : Option Errno) → Returns (elim o [ some e ↦ some q | none ↦ rest q.fs q.log ])
      go none = k q.fs q.log (HasFrags-Stamped g q.fs (s q refl) f)
      go (some err) = (q, refl)

  alternates-Returns :
      (left i : ℕ) (fs : Fs) (log : Log) → HasFrags fs → Returns (alternates d left i fs log)
  unfolding alternates
  alternates-Returns zero i fs log f = (_, refl)
  alternates-Returns (suc left) i fs log f =
      let loc = Super.fsbtodb fs (Super.cgsblock fs i) * d.dev_bsize in
      let moved : Fs = record fs { sblockactualloc = loc } in
      next_alternate-Returns moved _ _ f (ffs_sbput-Returns moved loc log f)
        (ffs_sbput-Stamped d moved loc log) (alternates-Returns left (i + 1))

  finish-Returns :
      (actualloc : ℕ) (csp : Option (List ℕ)) (o : Option Put)
      → Returns o
      → Returns (finish d actualloc csp o)
  unfolding finish
  finish-Returns actualloc csp none r = absurd (let (p, e) = r in cc)
  finish-Returns actualloc csp (some q) r = (_, refl)

  with_si-Returns :
      (n : ℕ) (p : Put) (o : Option Summary) → o ≢ none → HasFrags p.fs → Returns (with_si d n p o)
  unfolding with_si set_csp
  with_si-Returns n p none ne f = absurd (ne refl)
  with_si-Returns n p (some si) ne f =
      finish-Returns _ _ _ (alternates-Returns n 0 (set_csp p.fs none) p.log f)

  after_first-Returns :
      (n : ℕ) (o : Option Errno) (p : Put)
      → (n ≡ 0) ⊎ (p.fs.si ≢ none)
      → HasFrags p.fs
      → Returns (after_first d n o p)
  unfolding after_first
  after_first-Returns n (some e) p way f = (p, refl)
  after_first-Returns n none p (inl zero_) f =
      let stop : n == 0 ≡ true = ground arith in rw stop (p, refl)
  after_first-Returns n none p (inr ne) f =
      if_lem Returns (n == 0) _ _ (p, refl) (with_si-Returns n p p.fs.si ne f)

  with_alternates-Returns :
      (fs : Fs) (n : ℕ) (o : Option Put)
      → (n ≡ 0) ⊎ (fs.si ≢ none)
      → HasFrags fs
      → Returns o
      → ((p : Put) → o ≡ some p → Stamped fs p.fs)
      → Returns (with_alternates d n o)
  unfolding with_alternates
  with_alternates-Returns fs n none way f r s = absurd (let (p, e) = r in cc)
  with_alternates-Returns fs n (some p) way f r s =
      let same = ap (λ (x : Fs). x.si) (s p refl) in
      after_first-Returns n p.error p (subst (λ o. (n ≡ 0) ⊎ (o ≢ none)) (sym same) way)
        (HasFrags-Stamped fs p.fs (s p refl) f)

  sbput-Returns :
      (fs : Fs) (n : ℕ) → (n ≡ 0) ⊎ (fs.si ≢ none) → HasFrags fs → Returns (sbput d fs n)
  unfolding sbput
  sbput-Returns fs n way f =
      with_alternates-Returns fs n _ way f (ffs_sbput-Returns fs fs.sblockactualloc [] f)
        (ffs_sbput-Stamped d fs fs.sblockactualloc [])

  -- For a superblock whose fs_frag and fs_fsize are not 0, ffs_sbput returns: either a summary
  -- write is refused after only successful summary writes, its error is returned and the
  -- superblock is neither written nor changed, or every summary write succeeds and the stamped
  -- superblock is written after them, with the error of that write returned.
  pub ffs_sbput_total :
      (fs : Fs) (loc : ℕ)
      → HasFrags fs
      → (p : Put) × (ffs_sbput d fs loc [] ≡ some p) × Ordered d fs loc p
  ffs_sbput_total fs loc f =
      let (p, e) = ffs_sbput-Returns fs loc [] f in (p, e, ffs_sbput-Ordered d fs loc p e)

  -- For a superblock whose fs_frag and fs_fsize are not 0, and whose fs_si is not null or for
  -- which no alternate is to be written, sbput returns, whatever number of alternates it is to
  -- write and whichever write fails, and leaves the record as it was but for fs_fmod, fs_time and
  -- fs_ckhash.
  pub sbput_total :
      (fs : Fs) (n : ℕ)
      → (n ≡ 0) ⊎ (fs.si ≢ none)
      → HasFrags fs
      → (p : Put) × (sbput d fs n ≡ some p) × Stamped fs p.fs
  sbput_total fs n way f = let (p, e) = sbput-Returns fs n way f in (p, e, sbput-Stamped d fs n p e)
