-- ===== src/Tests/Super.antt =====
-- Reading and writing superblocks on small devices.
use ufson_mac_os.Base.{ℕ, ◌+◌, Bool, true, false, none, some, [], ◌∷◌, ◌≡◌, ◌↔◌}
use ufson_mac_os.Base.{refl, arith, subst, inr, ◌==◌, if◌then◌else◌}
use ufson_mac_os.Base.Int.{negsuc}
use ufson_mac_os.Super
use ufson_mac_os.Super.{Fs}
use ufson_mac_os.Super.Read.{World, Reply, got, failed, Result, to, readsuper, sbget}
use ufson_mac_os.Super.Read.Accept.{IsUsable, Accepts, readsuper_iff}
use ufson_mac_os.Super.Read.Memory.{Balanced}
use ufson_mac_os.Super.Read.Total.{HasFrags, IsSized, sbget_total}
use ufson_mac_os.Super.Read.{search}
use ufson_mac_os.Super.Read.Search.{Searched, search-Searched}
use ufson_mac_os.Super.Write.{Disk, Put, stamp, ffs_sbput, sbput}
use ufson_mac_os.Super.Write.Order.{Ordered}
use ufson_mac_os.Super.Write.Restore.{Stamped}
use ufson_mac_os.Super.Write.Total.{ffs_sbput_total, sbput_total}
use ufson_mac_os.Super.Write.Roundtrip.{readsuper-stamp}

abbrev disk : Disk
disk = record { write = λ loc block. none; now = 77; crc = λ fs. fs.time; dev_bsize = 512 }

-- UFS2 with blocks of 32768 bytes and fragments of 4096.
abbrev pub fs : Fs
fs = record {
  sblkno = 24;
  cblkno = 32;
  iblkno = 40;
  old_cgoffset = 0;
  old_cgmask = 0;
  ncg = 4;
  bsize = 32768;
  fsize = 4096;
  frag = 8;
  fragshift = 3;
  fshift = 12;
  fsbtodb = 3;
  sbsize = 4096;
  inopb = 128;
  cssize = 4096;
  cgsize = 32768;
  ipg = 80256;
  fpg = 160056;
  fmod = 1;
  clean = 1;
  si = some (record { csp = some (1 ∷ 2 ∷ []); maxcluster = []; contigdirs = [] });
  sblockactualloc = 65536;
  sblockloc = 65536;
  time = 5;
  csaddr = 5048;
  ckhash = 0;
  metackhash = 3;
  flags = 0x200;
  contigsumsize = 4;
  magic = 0x19540119;
}

abbrev read_super : ℕ → Reply Fs
read_super loc = if loc == 65536 then got (stamp disk fs) else failed Super.eio true

abbrev world : World
world = record {
  read_super = read_super;
  read_data = λ loc size. got (1 ∷ 2 ∷ []);
  malloc_si = true;
  malloc_space = true;
  crc = λ f. f.time;
  maxbsize = 65536;
  dev_bsize = 512;
}

stamp-IsUsable : IsUsable world (stamp disk fs) 65536 false
unfolding stamp
stamp-IsUsable = record {
  place = inr (refl, inr refl);
  groups = omega arith;
  bsize_min = omega arith;
  bsize_max = omega arith;
  bsize_fs = ground arith;
  sbsize_max = omega arith;
}

stamp-IsSized : IsSized (stamp disk fs)
unfolding stamp
stamp-IsSized = (omega arith, omega arith, refl, refl, omega arith)

abbrev Sized : Reply Fs → Type 0
Sized (got x) = IsSized x
Sized (failed e kept) = Unit

reply-Sized : (b : Bool) → Sized (if b then got (stamp disk fs) else failed Super.eio true)
reply-Sized true = stamp-IsSized
reply-Sized false = tt

world-HasFrags : HasFrags world
world-HasFrags loc x e = subst Sized e (reply-Sized (loc == 65536))

readsuper_iff_example :
    ((readsuper world 65536 false true 0).error ≡ none)
    ↔ ((x : Fs) × Accepts world 65536 false true x)
readsuper_iff_example = readsuper_iff world 65536 false true 0

readsuper-stamp_example : readsuper world 65536 false true 0 ≡ record {
  error = none;
  fs = to (record (stamp disk fs) { sblockactualloc = 65536 });
  live = 0 + 1;
}
readsuper-stamp_example =
    readsuper-stamp disk world fs 65536 false true 0 refl refl stamp-IsUsable
      (record { keeps_hashes = omega arith; hashes = refl; flags = refl })

sbget_total_example : (r : Result) × (sbget world (negsuc 0) 0 ≡ some r) × Balanced 0 r
sbget_total_example = sbget_total world world-HasFrags (negsuc 0) 0

ffs_sbput_total_example :
    (p : Put) × (ffs_sbput disk fs 65536 [] ≡ some p) × Ordered disk fs 65536 p
ffs_sbput_total_example = ffs_sbput_total disk fs 65536 (omega arith, omega arith)

sbput_total_example : (p : Put) × (sbput disk fs 3 ≡ some p) × Stamped fs p.fs
sbput_total_example = sbput_total disk fs 3 (inr (λ e. cc)) (omega arith, omega arith)

search-Searched_example :
    Searched world true 0 (0 ∷ 65536 ∷ []) (search world (0 ∷ 65536 ∷ []) true 0)
search-Searched_example = search-Searched world true 0 (0 ∷ 65536 ∷ [])
