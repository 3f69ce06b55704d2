-- ===== src/Tests/Quota.antt =====
-- A user quota that is at its soft limit, and a group quota near its hard limit.
use ufson_mac_os.Base.{ℕ, ◌≡◌, refl, inr, true, false, Option, some, List, [], ◌∷◌, arith}
use ufson_mac_os.Base.Int.{pos, negsuc}
use ufson_mac_os.Quota.{
  Meter, Dquot, Env, Inode, done, chkdq, chkiq, charge, chkdqchg, check_change, grow,
}
use ufson_mac_os.Quota.Charge.{Settles, Kept}
use ufson_mac_os.Quota.Totals.{
  blocks_of, inodes_of, AllowsBlocks, AllowsInodes, chkdq-Settles, chkiq-Settles, chkdq-chkdq,
}
use ufson_mac_os.Quota.Within.{AllWithin, dquots_of, chkdq-AllWithin}

abbrev used : ℕ → ℕ → ℕ → Meter
used n hard soft = record {
  cur = n;
  hardlimit = hard;
  softlimit = soft;
  time = 50;
  refused = false;
}

abbrev env : Env
env = record { own = true; now = 100; btime = λ type. 7; itime = λ type. 7 }

abbrev user : Dquot
user = record { blocks = used 3 20 10; inodes = used 1 0 0; modified = false }

abbrev group : Dquot
group = record { blocks = used 95 100 0; inodes = used 1 4 0; modified = false }

abbrev file : Inode
file = record { is_system = false; uid = 501; gid = 20; dquots = some user ∷ some group ∷ [] }

chkdq-Settles_example :
    Settles blocks_of inodes_of 8
      (AllowsBlocks true env 8)
      0
      file.dquots
      (chkdq env false false (pos 8) file)
chkdq-Settles_example = chkdq-Settles env false false 7 file refl

chkiq-Settles_example :
    Settles inodes_of blocks_of 1
      (AllowsInodes true env 1)
      0
      file.dquots
      (chkiq env false false (pos 1) file)
chkiq-Settles_example = chkiq-Settles env false false 0 file

abbrev bigger : List (Option Dquot)
bigger =
    some (record user { blocks = used 5 20 10; modified = true })
    ∷ some (record group { blocks = used 97 100 0; modified = true })
    ∷ []

grows : chkdq env false false (pos 2) file ≡ done bigger
unfolding chkdq charge chkdqchg check_change grow
grows = refl

chkdq-chkdq_example :
    (ds : List (Option Dquot)) × (chkdq env true false (negsuc 1) (record file { dquots = bigger })
      ≡ done ds)
    × Kept blocks_of inodes_of 2 (AllowsBlocks true env 2) file.dquots ds
chkdq-chkdq_example = chkdq-chkdq env false false 1 file env true false bigger refl grows

chkdq-AllWithin_example : AllWithin (dquots_of (chkdq env false false (pos 8) file))
chkdq-AllWithin_example =
    chkdq-AllWithin env (pos 8) file (inr (omega arith), (inr (omega arith), tt))
