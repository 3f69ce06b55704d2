-- ===== src/Super/Write/Restore.antt =====
-- What `sbput` of libufs/sblock.c leaves in the record.
use ufson_mac_os.Base.{ℕ, zero, suc, ◌+◌, ◌*◌, Option, none, some, []}
use ufson_mac_os.Base.{◌≡◌, refl, sym, ap, subst, ◌∙◌, ◌==◌}
use mathlib.Core.Option.{some-injective}
use ufson_mac_os.Super
use ufson_mac_os.Super.Read.Memory.{if_lem}
use ufson_mac_os.Super.{Fs, Errno, Summary}
use ufson_mac_os.Super.Write.{
  Disk, Put, Log, Store, stored, refused, stuck, stamp, put_super, ffs_sbput,
}
use ufson_mac_os.Super.Write.{
  set_csp, csp_in, put_back, finish, with_si, after_first, next_alternate, alternates,
  with_alternates, sbput,
}

-- `g` is `f` but for `fs_fmod`, `fs_time` and `fs_ckhash`.
abbrev pub Stamped : Fs → Fs → Type 0
Stamped f g = g ≡ record f { fmod = g.fmod; time = g.time; ckhash = g.ckhash }

-- `g` is `f` but for those and `fs_sblockactualloc`.
abbrev Moved : Fs → Fs → Type 0
Moved f g = g ≡ record f {
  fmod = g.fmod;
  time = g.time;
  ckhash = g.ckhash;
  sblockactualloc = g.sblockactualloc;
}

Moved-trans : (f g h : Fs) → Moved f g → Moved g h → Moved f h
Moved-trans f g h p q =
    q
    ∙ ap
        (λ (x : Fs). record x {
          fmod = h.fmod;
          time = h.time;
          ckhash = h.ckhash;
          sblockactualloc = h.sblockactualloc;
        })
        p

module _ (d : Disk) where
  put_super-Stamped :
      (fs : Fs) (loc : ℕ) (s : Store) (p : Put) → put_super d fs loc s ≡ some p → Stamped fs p.fs
  unfolding put_super stamp
  put_super-Stamped fs loc stuck p e = absurd (cc)
  put_super-Stamped fs loc (stored log) p e =
      subst (λ (q : Put). Stamped fs q.fs) (some-injective _ _ e) refl
  put_super-Stamped fs loc (refused err log) p e =
      subst (λ (q : Put). Stamped fs q.fs) (some-injective _ _ e) refl

  pub ffs_sbput-Stamped :
      (fs : Fs) (loc : ℕ) (log : Log) (p : Put) → ffs_sbput d fs loc log ≡ some p → Stamped fs p.fs
  unfolding ffs_sbput
  ffs_sbput-Stamped fs loc log p = put_super-Stamped fs loc _ p

  abbrev Keeps : Fs → Option Put → Type 0
  Keeps fs o = (p : Put) → o ≡ some p → Moved fs p.fs

  -- A stamped record has moved nothing.
  Moved-Stamped : (f g h : Fs) → Moved f g → Stamped g h → Moved f h
  Moved-Stamped f g h p q =
      q
      ∙ ap (λ (x : Fs). record x { fmod = h.fmod; time = h.time; ckhash = h.ckhash }) p
      ∙ ap (λ a. record f { fmod = h.fmod; time = h.time; ckhash = h.ckhash; sblockactualloc = a })
          (sym (ap (λ (x : Fs). x.sblockactualloc) q))

  next_alternate-Keeps :
      (f g : Fs) (o : Option Put) (rest : Fs → Log → Option Put)
      → Moved f g
      → ((p : Put) → o ≡ some p → Stamped g p.fs)
      → ((x : Fs) (log : Log) → Keeps x (rest x log))
      → Keeps f (next_alternate d o rest)
  unfolding next_alternate
  next_alternate-Keeps f g none rest m s k = λ p e. absurd (cc)
  next_alternate-Keeps f g (some q) rest m s k = go q.error
    where
      moved : Moved f q.fs
      moved = Moved-Stamped f g q.fs m (s q refl)

      go : (o : Option Errno) → Keeps f (elim o [ some e ↦ some q | none ↦ rest q.fs q.log ])
      go none p e = Moved-trans f q.fs p.fs moved (k q.fs q.log p e)
      go (some err) p e = subst (λ (r : Put). Moved f r.fs) (some-injective _ _ e) moved

  alternates-Keeps : (left i : ℕ) (fs : Fs) (log : Log) → Keeps fs (alternates d left i fs log)
  unfolding alternates
  alternates-Keeps zero i fs log =
      λ p e. subst (λ (r : Put). Moved fs r.fs) (some-injective _ _ e) refl
  alternates-Keeps (suc left) i fs log =
      let loc = Super.fsbtodb fs (Super.cgsblock fs i) * d.dev_bsize in
      next_alternate-Keeps fs (record fs { sblockactualloc = loc }) _ _ refl
        (ffs_sbput-Stamped (record fs { sblockactualloc = loc }) loc log)
        (alternates-Keeps left (i + 1))

  -- Putting the two fields back undoes both changes.
  csp_lem : (o : Option Summary) (si : Summary) → o ≡ some si → csp_in (csp_in o none) si.csp ≡ o
  unfolding csp_in
  csp_lem none si e = absurd (cc)
  csp_lem (some x) si e =
      ap (λ (y : Summary). some (record x { csp = y.csp })) (sym (some-injective _ _ e))

  put_back-Stamped :
      (saved : Fs) (si : Summary) (q : Put)
      → saved.si ≡ some si
      → Moved (set_csp saved none) q.fs
      → Stamped saved (put_back d saved.sblockactualloc si.csp q).fs
  unfolding set_csp put_back
  put_back-Stamped saved si q e m =
      ap
        (λ (x : Fs). record x {
          fmod = q.fs.fmod;
          time = q.fs.time;
          ckhash = q.fs.ckhash;
          sblockactualloc = saved.sblockactualloc;
          si = csp_in x.si si.csp;
        })
        m
      ∙ ap (λ s. record saved { fmod = q.fs.fmod; time = q.fs.time; ckhash = q.fs.ckhash; si = s })
          (csp_lem saved.si si e)

  Stamped-trans : (f g h : Fs) → Stamped f g → Stamped g h → Stamped f h
  Stamped-trans f g h p q =
      q ∙ ap (λ (x : Fs). record x { fmod = h.fmod; time = h.time; ckhash = h.ckhash }) p

  -- What a call leaves in the record.
  abbrev Leaves : Fs → Option Put → Type 0
  Leaves fs o = (p : Put) → o ≡ some p → Stamped fs p.fs

  leaves : (fs : Fs) (p : Put) → Stamped fs p.fs → Leaves fs (some p)
  leaves fs p h q e = subst (λ (r : Put). Stamped fs r.fs) (some-injective _ _ e) h

  finish-Leaves :
      (fs saved : Fs) (si : Summary) (o : Option Put)
      → Stamped fs saved
      → saved.si ≡ some si
      → Keeps (set_csp saved none) o
      → Leaves fs (finish d saved.sblockactualloc si.csp o)
  unfolding finish
  finish-Leaves fs saved si none h e k = λ p none_. absurd (cc)
  finish-Leaves fs saved si (some q) h e k =
      leaves fs _ (Stamped-trans fs saved _ h (put_back-Stamped saved si q e (k q refl)))

  with_si-Leaves :
      (fs : Fs) (n : ℕ) (p : Put) (o : Option Summary)
      → p.fs.si ≡ o
      → Stamped fs p.fs
      → Leaves fs (with_si d n p o)
  unfolding with_si
  with_si-Leaves fs n p none e h = λ q none_. absurd (cc)
  with_si-Leaves fs n p (some si) e h =
      finish-Leaves fs p.fs si _ h e (alternates-Keeps n 0 (set_csp p.fs none) p.log)

  after_first-Leaves :
      (fs : Fs) (n : ℕ) (o : Option Errno) (p : Put)
      → Stamped fs p.fs
      → Leaves fs (after_first d n o p)
  unfolding after_first
  after_first-Leaves fs n (some e) p h = leaves fs p h
  after_first-Leaves fs n none p h =
      if_lem (Leaves fs) (n == 0) _ _ (leaves fs p h) (with_si-Leaves fs n p p.fs.si refl h)

  with_alternates-Leaves :
      (fs : Fs) (n : ℕ) (o : Option Put) → Leaves fs o → Leaves fs (with_alternates d n o)
  unfolding with_alternates
  with_alternates-Leaves fs n none h = λ p e. absurd (cc)
  with_alternates-Leaves fs n (some p) h = after_first-Leaves fs n p.error p (h p refl)

  pub sbput-Stamped : (fs : Fs) (n : ℕ) (p : Put) → sbput d fs n ≡ some p → Stamped fs p.fs
  unfolding sbput
  sbput-Stamped fs n = with_alternates-Leaves fs n _ (ffs_sbput-Stamped fs fs.sblockactualloc [])
