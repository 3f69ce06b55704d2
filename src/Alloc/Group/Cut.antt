-- ===== src/Alloc/Group/Cut.antt =====
-- The allocation of a part of a block by `ffs_alloccgblk` of ufsX/ufs/ffs/ffs_alloc.c.
use ufson_mac_os.Base.{ℕ, ◌+◌, ◌-◌, ◌*◌, ◌/◌, ◌%◌, ◌<◌, ◌≤◌, true, false, ◌&&◌}
use ufson_mac_os.Base.{◌≡◌, refl, sym, subst, ap, ◌∙◌, arith, ltb, leb, ◌==◌, if◌then◌else◌, add32}
use native.Mathlib.Nat.{mul-add-mod_self_left, mul-mod_left, mod-eq_of_lt}
use ufson_mac_os.Super
use ufson_mac_os.Super.{Fs}
use ufson_mac_os.Ffs.Block.{isblock}
use ufson_mac_os.Ffs.Block.Bytes.{isset}
use ufson_mac_os.Libufs.Disk.{Uufsd}
use ufson_mac_os.Libufs.Cgroup.{take_block}
use ufson_mac_os.Libufs.Cgroup.Blocks.{nblocks, IsGeometry, BlocksAgree}
use ufson_mac_os.Libufs.Cgroup.Free.{fragstoblks, numfrags}
use ufson_mac_os.Alloc.Group.Aligned.{block-IsFreeRun, block_end-le}
use ufson_mac_os.Alloc.Group.{Group, free_rest, gotit}
use ufson_mac_os.Alloc.Group.Rest.{Takes, map-free_rest, nffree-free_rest, rest_lem}

-- A part of the block that is chosen.
module _ (g : Group) (geo : IsGeometry g.disk) (agree : BlocksAgree g.disk) (size bno : ℕ)
    (part : numfrags g.disk.fs size < g.disk.fs.frag)
    (start : bno ≡ bno / g.disk.fs.frag * g.disk.fs.frag)
    (below : bno / g.disk.fs.frag < nblocks g.disk)
    (free : isblock g.disk.fs.frag g.disk.cg.blksfree (bno / g.disk.fs.frag) ≡ true) where
  abbrev fs : Fs
  fs = g.disk.fs

  abbrev s : ℕ
  s = numfrags fs size

  end_lem : bno / fs.frag * fs.frag + fs.frag ≤ fs.fpg
  end_lem = block_end-le (bno / fs.frag) fs.fpg geo.known below

  -- What becomes of the disk.
  disk_lem :
      (rotor frotor : ℕ)
      → (gotit (record g { rotor = rotor; frotor = frotor }) bno size).1.disk
        ≡ free_rest (take_block g.disk (bno / fs.frag)) (bno / fs.frag * fs.frag) s
  unfolding gotit Super.cgbase
  disk_lem rotor frotor =
      let index : fragstoblks fs bno ≡ bno / fs.frag = ap (λ k. bno / k) geo.shift in
      let low : bno % fs.fpg ≡ bno = mod-eq_of_lt (omega (arith, end_lem, start, part)) in
      let offset : (fs.fpg * g.disk.cg.cgx + bno) % fs.fpg ≡ bno / fs.frag * fs.frag =
        mul-add-mod_self_left fs.fpg g.disk.cg.cgx bno ∙ low ∙ start in
      rw (index, offset) refl

  apart : (s == fs.frag) ≡ false
  apart = ground arith

  pub gotit-Takes :
      (rotor frotor : ℕ)
      → Takes g s
          (add32 g.disk.cg.cs.nffree (fs.frag - s))
          (gotit (record g { rotor = rotor; frotor = frotor }) bno size)
          bno
  unfolding take_block gotit Super.cgbase
  gotit-Takes rotor frotor =
      let h = bno / fs.frag in
      let run = block-IsFreeRun (g.disk.cg.blksfree) geo.known agree.bytes h free in
      let at_start : bno % fs.frag ≡ 0 = ap (λ t. t % fs.frag) start ∙ mul-mod_left h fs.frag in
      let disk = disk_lem rotor frotor in
      record {
        number = refl;
        inside = omega (arith, end_lem, start, part);
        one_block = omega (arith, at_start);
        were_free = λ k lt.
            subst (λ t. isset (g.disk.cg.blksfree) (t + k) ≡ true) (sym start)
              (run.all_free k (omega arith));
        taken = λ j.
            ap (λ (d : Uufsd). isset (d.cg.blksfree) j) disk
            ∙ ap (λ m. isset m j) (map-free_rest (take_block g.disk h) (h * fs.frag) s apart)
            ∙ rest_lem g geo agree h below free s j part
            ∙ ap (λ b. if leb b j && ltb j (b + s) then false else isset (g.disk.cg.blksfree) j)
                (sym start);
        counted =
            ap (λ (d : Uufsd). d.cg.cs.nffree) disk
            ∙ nffree-free_rest (take_block g.disk h) (h * fs.frag) s apart;
      }
