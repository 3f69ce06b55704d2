-- ===== src/Quota/Totals.antt =====
-- `chkdq` and `chkiq` of ufsX/ufs/ufs/ufs_quota.c as a whole.
use ufson_mac_os.Base.{
  ℕ, suc, ◌+◌, ◌≡◌, refl, ap, subst, ◌∙◌, arith, Option, List, map, Bool, true, false, not, ◌||◌,
  if◌then◌else◌,
}
use ufson_mac_os.Base.Int.{pos, negsuc}
use ufson_mac_os.Quota.{
  Meter, Dquot, Env, Inode, Checked, allowed, denied, Outcome, done, edquot, each, chkdqchg,
  chkiqchg, grow, shrink, put_blocks, put_inodes, mark_blocks, mark_inodes, free_blocks,
  free_inodes, unchecked, charge_blocks, charge_inodes, chkdq, chkiq, is_exempt,
}
use ufson_mac_os.Quota.Limits.{Fits, SameUse, Verdict, check_change-Verdict, grow_lem, shrink_lem}
use ufson_mac_os.Quota.Charge.{
  Same, Grown, Charged, Kept, Settles, Checks, charge-Settles, undo-Kept,
}

abbrev pub blocks_of : Dquot → Meter
blocks_of dq = dq.blocks

abbrev pub inodes_of : Dquot → Meter
inodes_of dq = dq.inodes

-- A change that is checked has to fit.
abbrev pub Allows : Bool → Env → Meter → ℕ → Type 0
Allows true env m n = Fits env m n
Allows false env m n = Unit

abbrev pub AllowsBlocks : Bool → Env → ℕ → ℕ → Dquot → Type 0
AllowsBlocks do_check env n type dq = Allows do_check env dq.blocks n

abbrev pub AllowsInodes : Bool → Env → ℕ → ℕ → Dquot → Type 0
AllowsInodes do_check env n type dq = Allows do_check env dq.inodes n

edquot_ne_done : (ds ds' : List (Option Dquot)) → ¬ (edquot ds ≡ done ds')
edquot_ne_done ds ds' e = absurd (let c = e in cc)

done_inj : (ds ds' : List (Option Dquot)) → done ds ≡ done ds' → ds ≡ ds'
done_inj ds ds' e = cc

grown :
    (env : Env) (grace n : ℕ) (m m' : Meter)
    → SameUse m m'
    → ((grow env grace n m').cur ≡ m.cur + n)
      × ((grow env grace n m').hardlimit ≡ m.hardlimit)
      × ((grow env grace n m').softlimit ≡ m.softlimit)
grown env grace n m m' s =
    let g = grow_lem env grace n m' in
    (g.0 ∙ ap (λ c. c + n) s.cur, g.1 ∙ s.hardlimit, g.2 ∙ s.softlimit)

shrunk :
    (n : ℕ) (m m' : Meter)
    → m'.cur ≡ m.cur + n
    → m'.hardlimit ≡ m.hardlimit
    → m'.softlimit ≡ m.softlimit
    → SameUse m (shrink n m')
shrunk n m m' e h s =
    let g = shrink_lem n m' in
    record { cur = omega (arith, g.0, e); hardlimit = g.1 ∙ h; softlimit = g.2 ∙ s }

module _ (n : ℕ) (P : ℕ → Dquot → Type 0) (dq dq' : Dquot) where
  blocks_back :
      Grown blocks_of inodes_of n P dq dq' → Same blocks_of inodes_of n P dq (free_blocks n dq')
  blocks_back g = record {
    use_same = shrunk n dq.blocks dq'.blocks g.more g.hard_same g.soft_same;
    other_same = g.rest_same;
  }

  inodes_back :
      Grown inodes_of blocks_of n P dq dq' → Same inodes_of blocks_of n P dq (free_inodes n dq')
  inodes_back g = record {
    use_same = shrunk n dq.inodes dq'.inodes g.more g.hard_same g.soft_same;
    other_same = g.rest_same;
  }

module _ (env : Env) (do_check : Bool) (n : ℕ) where
  blocks_check :
      (b : Bool) (type : ℕ) (dq : Dquot)
      → Checks blocks_of inodes_of n
          (AllowsBlocks b env n)
          type
          dq
          (if b then chkdqchg env type n dq else unchecked dq.blocks)
  unfolding chkdqchg
  blocks_check true type dq = by_verdict _ (check_change-Verdict env (env.btime type) n dq.blocks)
    where
      by_verdict :
          (c : Checked)
          → Verdict env n dq.blocks c
          → Checks blocks_of inodes_of n (AllowsBlocks true env n) type dq c
      by_verdict (allowed m) v = v
      by_verdict (denied m) v = v
  blocks_check false type dq = (tt, record { cur = refl; hardlimit = refl; softlimit = refl })

  pub charge_blocks-Settles :
      (ds : List (Option Dquot))
      → Settles blocks_of inodes_of n
          (AllowsBlocks do_check env n)
          0
          ds
          (charge_blocks env do_check n ds)
  charge_blocks-Settles ds =
      charge-Settles blocks_of inodes_of n (AllowsBlocks do_check env n) _ mark_blocks
        (λ type dq m. put_blocks dq (grow env (env.btime type) n m)) (free_blocks n)
        (blocks_check do_check) (λ dq m s. record { use_same = s; other_same = refl })
        (λ type dq m s.
          let g = grown env (env.btime type) n dq.blocks m s in
          record { more = g.0; hard_same = g.1; soft_same = g.2; rest_same = refl })
        (λ dq dq' g. blocks_back n (AllowsBlocks do_check env n) dq dq' g) 0 ds

  inodes_check :
      (b : Bool) (type : ℕ) (dq : Dquot)
      → Checks inodes_of blocks_of n
          (AllowsInodes b env n)
          type
          dq
          (if b then chkiqchg env type n dq else unchecked dq.inodes)
  unfolding chkiqchg
  inodes_check true type dq = by_verdict _ (check_change-Verdict env (env.itime type) n dq.inodes)
    where
      by_verdict :
          (c : Checked)
          → Verdict env n dq.inodes c
          → Checks inodes_of blocks_of n (AllowsInodes true env n) type dq c
      by_verdict (allowed m) v = v
      by_verdict (denied m) v = v
  inodes_check false type dq = (tt, record { cur = refl; hardlimit = refl; softlimit = refl })

  pub charge_inodes-Settles :
      (ds : List (Option Dquot))
      → Settles inodes_of blocks_of n
          (AllowsInodes do_check env n)
          0
          ds
          (charge_inodes env do_check n ds)
  charge_inodes-Settles ds =
      charge-Settles inodes_of blocks_of n (AllowsInodes do_check env n) _ mark_inodes
        (λ type dq m. put_inodes dq (grow env (env.itime type) n m)) (free_inodes n)
        (inodes_check do_check) (λ dq m s. record { use_same = s; other_same = refl })
        (λ type dq m s.
          let g = grown env (env.itime type) n dq.inodes m s in
          record { more = g.0; hard_same = g.1; soft_same = g.2; rest_same = refl })
        (λ dq dq' g. inodes_back n (AllowsInodes do_check env n) dq dq' g) 0 ds

module _ (env : Env) (force privileged : Bool) (n : ℕ) (ip : Inode) where
  abbrev pub do_check : Bool
  do_check = not (force || privileged)

  -- For a file with quotas and a growth by blocks, chkdq returns 0, every quota allows the growth,
  -- if it is checked, and the use of each grows by it; or it returns EDQUOT, some quota does not
  -- allow it, and the use of each is as before. The limits and the counts of inodes stay.
  pub chkdq-Settles :
      is_exempt ip ≡ false
      → Settles blocks_of inodes_of
          (suc n)
          (AllowsBlocks do_check env (suc n))
          0
          ip.dquots
          (chkdq env force privileged (pos (suc n)) ip)
  unfolding chkdq
  chkdq-Settles applies = rw applies (charge_blocks-Settles env do_check (suc n) ip.dquots)

  -- For a growth by inodes, chkiq returns 0, every quota allows the growth, if it is checked, and
  -- the count of each grows by it; or it returns EDQUOT, some quota does not allow it, and the
  -- count of each is as before. The limits and the use of blocks stay.
  pub chkiq-Settles :
      Settles inodes_of blocks_of
        (suc n)
        (AllowsInodes do_check env (suc n))
        0
        ip.dquots
        (chkiq env force privileged (pos (suc n)) ip)
  unfolding chkiq
  chkiq-Settles = charge_inodes-Settles env do_check (suc n) ip.dquots

  blocks_taken :
      (ds : List (Option Dquot)) (r : Outcome)
      → r ≡ done ds
      → Settles blocks_of inodes_of (suc n) (AllowsBlocks do_check env (suc n)) 0 ip.dquots r
      → Kept blocks_of inodes_of
          (suc n)
          (AllowsBlocks do_check env (suc n))
          ip.dquots
          (map (each (free_blocks (suc n))) ds)
  blocks_taken ds (edquot ds') e s = absurd (edquot_ne_done ds' ds e)
  blocks_taken ds (done ds') e s =
      let same : ds' ≡ ds = done_inj ds' ds e in
      undo-Kept blocks_of inodes_of (suc n) (AllowsBlocks do_check env (suc n))
        (free_blocks (suc n)) (blocks_back (suc n) (AllowsBlocks do_check env (suc n))) 0 ip.dquots
        ds
        (subst (Charged blocks_of inodes_of (suc n) (AllowsBlocks do_check env (suc n)) 0 ip.dquots)
          same s)

  -- For a file with quotas, if chkdq returns 0 for a growth, then chkdq by as much the other way
  -- returns 0, and the use, the limits and the counts of inodes of each quota are as before both.
  pub chkdq-chkdq :
      (env' : Env) (force' privileged' : Bool) (ds : List (Option Dquot))
      → is_exempt ip ≡ false
      → chkdq env force privileged (pos (suc n)) ip ≡ done ds
      → (ds' : List (Option Dquot)) × (chkdq env' force' privileged'
            (negsuc n)
            (record ip { dquots = ds })
          ≡ done ds')
        × Kept blocks_of inodes_of (suc n) (AllowsBlocks do_check env (suc n)) ip.dquots ds'
  unfolding chkdq
  chkdq-chkdq env' force' privileged' ds applies e = (
    map (each (free_blocks (suc n))) ds,
    rw applies refl,
    blocks_taken ds (charge_blocks env do_check (suc n) ip.dquots) (rw applies at e)
        (charge_blocks-Settles env do_check (suc n) ip.dquots),
  )
