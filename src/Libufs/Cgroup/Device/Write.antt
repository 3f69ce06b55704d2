-- ===== src/Libufs/Cgroup/Device/Write.antt =====
-- What `cgwrite` of libufs/cgroup.c returns, and what it leaves.
use ufson_mac_os.Base.{true, ◌==◌}
use ufson_mac_os.Base.{◌≡◌, ◌↔◌, refl, sym, ◌∙◌, arith}
use ufson_mac_os.Base.Int.{ℤ, pos}
use ufson_mac_os.Libufs.Disk.{Uufsd}
use ufson_mac_os.Libufs.Cgroup.Device.{
  World, Wrote, refused, partial, whole, cg_offset, stamp, cgput, on_put, cgwrite1, cgwrite,
}

module _ (w : World) (disk : Uufsd) where
  -- The group in memory is stamped, and 0 is returned when the device takes the whole of it.
  abbrev pub Stores : ℤ × Uufsd → Type 0
  Stores r =
      ((r.0 ≡ pos 0) ↔ (w.pwrite (cg_offset disk.fs disk.cg.cgx) (r.1.cg) ≡ whole))
      × (r.1 ≡ record disk { error = r.1.error; cg = stamp w disk.fs disk.cg })

  on_put-Stores :
      (o : Wrote)
      → cgput w disk.fs disk.cg ≡ o
      → Stores (on_put w (record disk { cg = stamp w disk.fs disk.cg }) o)
  unfolding on_put cgput
  on_put-Stores whole e = ((λ h. e, λ h. refl), refl)
  on_put-Stores partial e = ((λ h. absurd (cc), λ h. absurd (let q = sym e ∙ h in cc)), refl)
  on_put-Stores (refused err) e = ((λ h. absurd (cc), λ h. absurd (let q = sym e ∙ h in cc)), refl)

  pub cgwrite-Stores : Stores (cgwrite w disk)
  unfolding cgwrite cgwrite1
  cgwrite-Stores =
      let same : disk.cg.cgx == disk.cg.cgx ≡ true = ground arith in
      rw same (on_put-Stores (cgput w disk.fs disk.cg) refl)
