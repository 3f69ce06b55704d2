-- ===== src/Quota/Charge.antt =====
-- The loops of `chkdq` and `chkiq` of ufsX/ufs/ufs/ufs_quota.c over the types of quotas.
use ufson_mac_os.Base.{
  ℕ, suc, ◌+◌, ◌≡◌, ◌⊎◌, inl, inr, refl, Option, none, some, List, [], ◌∷◌, map,
}
use ufson_mac_os.Quota.{
  Meter, Dquot, Checked, allowed, denied, Outcome, done, edquot, charge, skipped, on_check, each,
}
use ufson_mac_os.Quota.Limits.{SameUse}

-- One kind of use, and the other kind, which does not change.
module _ (meter other : Dquot → Meter) (n : ℕ) (P : ℕ → Dquot → Type 0) where
  pub record Same (dq dq' : Dquot) : Type 0 where
    pub use_same : SameUse (meter dq) (meter dq')
    pub other_same : other dq' ≡ other dq

  pub record Grown (dq dq' : Dquot) : Type 0 where
    pub more : (meter dq').cur ≡ (meter dq).cur + n
    pub hard_same : (meter dq').hardlimit ≡ (meter dq).hardlimit
    pub soft_same : (meter dq').softlimit ≡ (meter dq).softlimit
    pub rest_same : other dq' ≡ other dq

  -- Every quota allows the change, and its use grows.
  abbrev pub Charged : ℕ → List (Option Dquot) → List (Option Dquot) → Type 0
  Charged type [] [] = Unit
  Charged type (none ∷ ds) (none ∷ ds') = Charged (suc type) ds ds'
  Charged type (some dq ∷ ds) (some dq' ∷ ds') =
      P type dq × Grown dq dq' × Charged (suc type) ds ds'
  Charged type _ _ = ⊥

  -- Every use is as before.
  abbrev pub Kept : List (Option Dquot) → List (Option Dquot) → Type 0
  Kept [] [] = Unit
  Kept (none ∷ ds) (none ∷ ds') = Kept ds ds'
  Kept (some dq ∷ ds) (some dq' ∷ ds') = Same dq dq' × Kept ds ds'
  Kept _ _ = ⊥

  -- Some quota does not allow the change.
  abbrev pub Refused : ℕ → List (Option Dquot) → Type 0
  Refused type [] = ⊥
  Refused type (none ∷ ds) = Refused (suc type) ds
  Refused type (some dq ∷ ds) = (¬ P type dq) ⊎ Refused (suc type) ds

  abbrev pub Settles : ℕ → List (Option Dquot) → Outcome → Type 0
  Settles type ds (done ds') = Charged type ds ds'
  Settles type ds (edquot ds') = Refused type ds × Kept ds ds'

  abbrev pub Checks : ℕ → Dquot → Checked → Type 0
  Checks type dq (allowed m) = P type dq × SameUse (meter dq) m
  Checks type dq (denied m) = ¬ P type dq × SameUse (meter dq) m

  unchanged : (dq : Dquot) → Same dq dq
  unchanged dq = record {
    use_same = record { cur = refl; hardlimit = refl; softlimit = refl };
    other_same = refl;
  }

  unchanged_all : (ds : List (Option Dquot)) → Kept ds ds
  unchanged_all [] = tt
  unchanged_all (none ∷ ds) = unchanged_all ds
  unchanged_all (some dq ∷ ds) = (unchanged dq, unchanged_all ds)

  -- What was added is taken away again.
  pub undo-Kept :
      (undo : Dquot → Dquot)
      → ((dq dq' : Dquot) → Grown dq dq' → Same dq (undo dq'))
      → (type : ℕ) (ds ds' : List (Option Dquot)) → Charged type ds ds'
      → Kept ds (map (each undo) ds')
  undo-Kept undo undoes type [] [] c = tt
  undo-Kept undo undoes type (none ∷ ds) (none ∷ ds') c = undo-Kept undo undoes (suc type) ds ds' c
  undo-Kept undo undoes type (some dq ∷ ds) (some dq' ∷ ds') c =
      (undoes dq dq' c.1, undo-Kept undo undoes (suc type) ds ds' c.2)
  undo-Kept undo undoes type [] (d ∷ ds') c = absurd c
  undo-Kept undo undoes type (none ∷ ds) [] c = absurd c
  undo-Kept undo undoes type (some dq ∷ ds) [] c = absurd c
  undo-Kept undo undoes type (none ∷ ds) (some d ∷ ds') c = absurd c
  undo-Kept undo undoes type (some dq ∷ ds) (none ∷ ds') c = absurd c

  module _ (check : ℕ → Dquot → Checked) (mark : Dquot → Meter → Dquot)
      (add : ℕ → Dquot → Meter → Dquot) (undo : Dquot → Dquot)
      (checks : (type : ℕ) (dq : Dquot) → Checks type dq (check type dq))
      (marks : (dq : Dquot) (m : Meter) → SameUse (meter dq) m → Same dq (mark dq m))
      (adds : (type : ℕ) (dq : Dquot) (m : Meter) → SameUse (meter dq) m → Grown dq (add type dq m))
      (undoes : (dq dq' : Dquot) → Grown dq dq' → Same dq (undo dq')) where
    by_check :
        (type : ℕ) (dq : Dquot) (ds : List (Option Dquot)) (c : Checked) (after : Outcome)
        → Checks type dq c
        → Settles (suc type) ds after
        → Settles type (some dq ∷ ds) (on_check check mark add undo type dq c ds after)
    by_check type dq ds (denied m) after c s = (inl c.0, (marks dq m c.1, unchanged_all ds))
    by_check type dq ds (allowed m) (done ds') c s = (c.0, adds type dq m c.1, s)
    by_check type dq ds (allowed m) (edquot ds') c s =
        (inr s.0, (undoes dq (add type dq m) (adds type dq m c.1), s.1))

    by_none :
        (type : ℕ) (ds : List (Option Dquot)) (after : Outcome)
        → Settles (suc type) ds after
        → Settles type (none ∷ ds) (skipped check mark add undo after)
    by_none type ds (done ds') s = s
    by_none type ds (edquot ds') s = s

    pub charge-Settles :
        (type : ℕ) (ds : List (Option Dquot)) → Settles type ds (charge check mark add undo type ds)
    unfolding charge
    charge-Settles type [] = tt
    charge-Settles type (none ∷ ds) = by_none type ds _ (charge-Settles (suc type) ds)
    charge-Settles type (some dq ∷ ds) =
        by_check type dq ds (check type dq) _ (checks type dq) (charge-Settles (suc type) ds)
