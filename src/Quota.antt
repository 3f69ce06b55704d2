-- ===== src/Quota.antt =====
-- The disk quotas of ufsX/ufs/ufs/ufs_quota.c: `chkdq`, `chkiq` and what they call. The quotas of an
-- inode are a list, by type; the locks, the waits for them and the messages are left out, and sums
-- fit 63 bits.
pub mod Limits
pub mod Charge
pub mod Totals
pub mod Within
use ufson_mac_os.Base.{
  ℕ, zero, suc, ◌+◌, ◌-◌, Bool, true, false, ◌&&◌, ◌||◌, not, Option, none, some, List, [], ◌∷◌,
  map,
}
use ufson_mac_os.Base.{ltb, leb, ◌==◌, if◌then◌else◌}
use ufson_mac_os.Base.Int.{ℤ, pos, negsuc}

-- The fields of a quota for blocks, or for inodes: use, limits, the time at which the grace ends,
-- and DQ_BLKS or DQ_INODS.
pub record Meter : Type 0 where
  pub cur : ℕ
  pub hardlimit : ℕ
  pub softlimit : ℕ
  pub time : ℕ
  pub refused : Bool

pub record Dquot : Type 0 where
  pub blocks : Meter
  pub inodes : Meter
  -- DQ_MOD
  pub modified : Bool

-- `own` says whether the inode belongs to the user, `now` is the time, and `btime` and `itime` give
-- the grace of each type.
pub record Env : Type 0 where
  pub own : Bool
  pub now : ℕ
  pub btime : ℕ → ℕ
  pub itime : ℕ → ℕ

pub record Inode : Type 0 where
  pub is_system : Bool
  pub uid : ℕ
  pub gid : ℕ
  pub dquots : List (Option Dquot)

pub data Checked : Type 0 where
  allowed denied : Meter → Checked

abbrev pub refuse : Env → Meter → Meter
refuse env m = record m { refused = m.refused || env.own }

-- `limit && n >= limit`
abbrev pub reaches : ℕ → ℕ → Bool
reaches n limit = leb limit n && not (limit == 0)

-- The tests that `chkdqchg` and `chkiqchg` make, on their own fields.
unfoldable pub check_change : Env → ℕ → ℕ → Meter → Checked
check_change env grace change m =
    let n = m.cur + change in
    if reaches n m.hardlimit
    then denied (refuse env m)
    else if reaches n m.softlimit
    then if ltb m.cur m.softlimit
      then allowed (record m { time = env.now + grace })
      else if ltb m.time env.now
      then denied (refuse env m)
      else allowed m
    else allowed m

unfoldable pub chkdqchg : Env → ℕ → ℕ → Dquot → Checked
unfolding check_change
chkdqchg env type change dq = check_change env (env.btime type) change dq.blocks

pub chkiqchg : Env → ℕ → ℕ → Dquot → Checked
unfolding check_change
chkiqchg env type change dq = check_change env (env.itime type) change dq.inodes

-- The use grows, and the grace starts as it crosses the soft limit.
unfoldable pub grow : Env → ℕ → ℕ → Meter → Meter
grow env grace change m =
    let timed =
      if leb m.softlimit (m.cur + change) && ltb m.cur m.softlimit
      then record m { time = env.now + grace }
      else m in
    record timed { cur = timed.cur + change }

-- The use shrinks, to 0 at least, and the mark of a refusal is cleared.
pub shrink : ℕ → Meter → Meter
shrink change m = record m { cur = if leb change m.cur then m.cur - change else 0; refused = false }

abbrev pub put_blocks : Dquot → Meter → Dquot
put_blocks dq m = record dq { blocks = m; modified = true }

abbrev pub put_inodes : Dquot → Meter → Dquot
put_inodes dq m = record dq { inodes = m; modified = true }

-- A denied change marks the refusal only.
abbrev pub mark_blocks : Dquot → Meter → Dquot
mark_blocks dq m = record dq { blocks = m }

abbrev pub mark_inodes : Dquot → Meter → Dquot
mark_inodes dq m = record dq { inodes = m }

-- EDQUOT, with the quotas as they are left.
pub data Outcome : Type 0 where
  done edquot : List (Option Dquot) → Outcome

-- The loops of `chkdq` and `chkiq`: `check`, `add` and `undo` of a quota of each type. What the code
-- has added already when a later type fails is undone on the way back.
module _ (check : ℕ → Dquot → Checked) (mark : Dquot → Meter → Dquot)
    (add : ℕ → Dquot → Meter → Dquot) (undo : Dquot → Dquot) where
  abbrev pub passed : Dquot → Outcome → Outcome
  passed dq (done rest) = done (some dq ∷ rest)
  passed dq (edquot rest) = edquot (some (undo dq) ∷ rest)

  abbrev pub skipped : Outcome → Outcome
  skipped (done rest) = done (none ∷ rest)
  skipped (edquot rest) = edquot (none ∷ rest)

  abbrev pub on_check : ℕ → Dquot → Checked → List (Option Dquot) → Outcome → Outcome
  on_check type dq (denied m) rest after = edquot (some (mark dq m) ∷ rest)
  on_check type dq (allowed m) rest after = passed (add type dq m) after

  unfoldable pub charge : ℕ → List (Option Dquot) → Outcome
  charge type [] = done []
  charge type (none ∷ rest) = skipped (charge (suc type) rest)
  charge type (some dq ∷ rest) = on_check type dq (check type dq) rest (charge (suc type) rest)

abbrev pub each : (Dquot → Dquot) → Option Dquot → Option Dquot
each f none = none
each f (some dq) = some (f dq)

-- No check: the change is forced, or the user may exceed quotas.
abbrev pub unchecked : Meter → Checked
unchecked m = allowed m

abbrev pub free_blocks : ℕ → Dquot → Dquot
free_blocks n dq = put_blocks dq (shrink n dq.blocks)

abbrev pub free_inodes : ℕ → Dquot → Dquot
free_inodes n dq = put_inodes dq (shrink n dq.inodes)

abbrev pub charge_blocks : Env → Bool → ℕ → List (Option Dquot) → Outcome
charge_blocks env do_check n dquots =
    charge (λ type dq. if do_check then chkdqchg env type n dq else unchecked dq.blocks) mark_blocks
      (λ type dq m. put_blocks dq (grow env (env.btime type) n m)) (free_blocks n) 0 dquots

abbrev pub charge_inodes : Env → Bool → ℕ → List (Option Dquot) → Outcome
charge_inodes env do_check n dquots =
    charge (λ type dq. if do_check then chkiqchg env type n dq else unchecked dq.inodes) mark_inodes
      (λ type dq m. put_inodes dq (grow env (env.itime type) n m)) (free_inodes n) 0 dquots

-- `(int)id < 0`
abbrev pub is_negative : ℕ → Bool
is_negative id = leb 0x80000000 id

-- Quotas are off for the file.
abbrev pub is_exempt : Inode → Bool
is_exempt ip = ip.is_system || (is_negative ip.uid || is_negative ip.gid)

-- `do_check` is 1 unless the change is forced or the user may exceed quotas.
unfoldable pub chkdq : Env → Bool → Bool → ℤ → Inode → Outcome
chkdq env force privileged change ip = if is_exempt ip then done ip.dquots else elim change [
  | pos zero ↦ done ip.dquots
  | pos (suc n) ↦ charge_blocks env (not (force || privileged)) (suc n) ip.dquots
  | negsuc n ↦ done (map (each (free_blocks (suc n))) ip.dquots)
]

pub chkiq : Env → Bool → Bool → ℤ → Inode → Outcome
chkiq env force privileged change ip = elim change [
  | pos zero ↦ done ip.dquots
  | pos (suc n) ↦ charge_inodes env (not (force || privileged)) (suc n) ip.dquots
  | negsuc n ↦ done (map (each (free_inodes (suc n))) ip.dquots)
]
