-- ===== src/Libufs/Inode/Hash.antt =====
-- The check-hash of an inode, computed and verified, in `putinode` of libufs/inode.c.
use ufson_mac_os.Base.{ℕ, zero, suc, ◌<◌, Bool, true, false, Option, none, some, List, [], ◌∷◌}
use ufson_mac_os.Base.{
  ◌*◌, ◌≡◌, ◌≢◌, ◌⊎◌, sym, subst, refl, ap, ◌∙◌, arith, inl, inr, Bool-cases, ◌==◌, get_or, set,
  length, if◌then◌else◌,
}
use ufson_mac_os.Base.Int.{ℤ, pos, negsuc}
use ufson_mac_os.Super.{Fs, Errno}
use ufson_mac_os.Super
use ufson_mac_os.Libufs.Disk.{Uufsd}
use ufson_mac_os.Libufs.Disk.Writes.{Written, bwrite-Written}
use ufson_mac_os.Libufs.Cgroup.{ino_to_fsba}
use ufson_mac_os.Libufs.Inode.{
  Dinode, no_dinode, unhashed, verify_dinode_ckhash, update_dinode_ckhash, Inodes, on_written,
  hashed, put_block, putinode,
}

get_or-set_same :
    {A : Type 0} (l : List A) (i : ℕ) (v d : A) → i < length l → get_or (set l i v) i d ≡ v
get_or-set_same [] i v d lt = absurd (omega arith)
get_or-set_same (x ∷ l) zero v d lt = refl
get_or-set_same (x ∷ l) (suc i) v d lt = get_or-set_same l i v d (omega arith)

get_or-set_other :
    {A : Type 0} (l : List A) (i j : ℕ) (v d : A) → j ≢ i → get_or (set l i v) j d ≡ get_or l j d
get_or-set_other [] i j v d ne = refl
get_or-set_other (x ∷ l) zero zero v d ne = absurd (ne refl)
get_or-set_other (x ∷ l) zero (suc j) v d ne = refl
get_or-set_other (x ∷ l) (suc i) zero v d ne = refl
get_or-set_other (x ∷ l) (suc i) (suc j) v d ne = get_or-set_other l i j v d (λ e. ne (ap suc e))

module _ (crc : Dinode → ℕ) where
  -- An inode whose hash was updated verifies.
  pub verify_dinode_ckhash-update_dinode_ckhash :
      (fs : Fs) (dip : Dinode)
      → verify_dinode_ckhash crc fs (update_dinode_ckhash crc fs dip) ≡ none
  unfolding verify_dinode_ckhash update_dinode_ckhash
  verify_dinode_ckhash-update_dinode_ckhash fs dip = elim (Bool-cases (unhashed crc fs dip)) [
    | inl t ↦ rw (t, t) refl
    | inr f ↦
        let hash = crc (record dip { ckhash = 0 }) in
        let same : hash == hash ≡ true = ground arith in rw (f, f, same) refl
  ]

  -- The update changes the hash only.
  update_dinode_ckhash_lem :
      (fs : Fs) (dip : Dinode)
      → update_dinode_ckhash crc fs dip
        ≡ record dip { ckhash = (update_dinode_ckhash crc fs dip).ckhash }
  unfolding update_dinode_ckhash
  update_dinode_ckhash_lem fs dip = by_test (unhashed crc fs dip)
    where
      by_test :
          (b : Bool)
          → (if b then dip else record dip { ckhash = crc (record dip { ckhash = 0 }) })
            ≡ record dip {
              ckhash =
                  (if b
                    then dip
                    else record dip { ckhash = crc (record dip { ckhash = 0 }) }).ckhash;
            }
      by_test true = refl
      by_test false = refl

  module _ (opens : Option ℕ) (pwrite : ℕ → List Dinode → ℕ → Option ℕ) (s : Inodes) where
    -- Where the block goes.
    abbrev pub place : ℕ
    place = Super.fsbtodb s.disk.fs (ino_to_fsba s.disk.fs s.inomin)

    -- 0 if the disk is open for writing, or can be opened, and the device takes the whole block, else -1.
    abbrev pub Stores : List Dinode → ℤ × Inodes → Type 0
    Stores block r =
        ((r.0 ≡ pos 0)
          × (pwrite (place * s.disk.bsize) block s.disk.fs.bsize ≡ some s.disk.fs.bsize)
          × ((s.disk.writable ≡ true) ⊎ (opens ≢ none)))
        ⊎ ((r.0 ≡ negsuc 0)
            × (r.1.disk.error ≢ none)
            × ((pwrite (place * s.disk.bsize) block s.disk.fs.bsize ≢ some s.disk.fs.bsize)
                ⊎ ((s.disk.writable ≡ false) × (opens ≡ none))))

    -- What `putinode` leaves and returns, with `inoblock` in memory before.
    pub record Puts (inoblock : List Dinode) (r : ℤ × Inodes) : Type 0 where
      pub block : List Dinode
      pub held : r.1.inoblock ≡ some block
      pub verified : verify_dinode_ckhash crc s.disk.fs (get_or block s.dp no_dinode) ≡ none
      pub kept : get_or block s.dp no_dinode ≡ record (get_or inoblock s.dp no_dinode) {
        ckhash = (get_or block s.dp no_dinode).ckhash;
      }
      pub others : (j : ℕ) → j ≢ s.dp → get_or block j no_dinode ≡ get_or inoblock j no_dinode
      pub status : Stores block r

    on_written-held : (t : Inodes) (r : ℤ × Uufsd) → (on_written t r).1.inoblock ≡ t.inoblock
    unfolding on_written
    on_written-held t (negsuc n, disk) = refl
    on_written-held t (pos zero, disk) = refl
    on_written-held t (pos (suc n), disk) = refl

    on_written-Stores :
        (t : Inodes) (block : List Dinode) (r : ℤ × Uufsd)
        → 0 < s.disk.fs.bsize
        → Written opens pwrite s.disk place block s.disk.fs.bsize r
        → Stores block (on_written t r)
    unfolding on_written
    on_written-Stores t block (pos zero, disk) pos_b (inl (e, clear, w, wrote, way)) =
        absurd (let none_written : 0 ≡ s.disk.fs.bsize = cc in omega (arith, pos_b))
    on_written-Stores t block (pos (suc n), disk) pos_b (inl (e, clear, w, wrote, way)) =
        inl (refl, wrote, way)
    on_written-Stores t block (negsuc n, disk) pos_b (inl (e, clear, w, wrote, way)) = absurd (cc)
    on_written-Stores t block (negsuc n, disk) pos_b (inr (e, text, why)) = inr (refl, text, why)
    on_written-Stores t block (pos n, disk) pos_b (inr (e, text, why)) = absurd (cc)

    hashed_lem :
        (inoblock : List Dinode)
        → s.ufs ≡ 2
        → hashed crc opens pwrite s inoblock
          ≡ set inoblock s.dp (update_dinode_ckhash crc s.disk.fs (get_or inoblock s.dp no_dinode))
    unfolding hashed
    hashed_lem inoblock two = let is : s.ufs == 2 ≡ true = ground arith in rw is refl

    -- On UFS2, with an inode in memory and a block size above 0, putinode changes nothing in the
    -- block of inodes but the check-hash of the current inode, which verifies afterwards; it
    -- returns 0 exactly when the disk is open for writing, or can be opened, and the device takes
    -- the whole of that block at its place, and otherwise -1 with a message.
    pub putinode-Puts :
        (inoblock : List Dinode)
        → s.inoblock ≡ some inoblock
        → s.ufs ≡ 2
        → s.dp < length inoblock
        → 0 < s.disk.fs.bsize
        → Puts inoblock (putinode crc opens pwrite s)
    unfolding putinode put_block
    putinode-Puts inoblock e two lt pos_b =
        let block : List Dinode = hashed crc opens pwrite s inoblock in
        let new : Dinode = update_dinode_ckhash crc s.disk.fs (get_or inoblock s.dp no_dinode) in
        let written = bwrite-Written opens pwrite s.disk place block s.disk.fs.bsize in
        rw (e, put_block)
          (record {
            block = block;
            held = on_written-held (record s { inoblock = some block }) _;
            verified =
                ap (λ l. verify_dinode_ckhash crc s.disk.fs (get_or l s.dp no_dinode))
                  (hashed_lem inoblock two)
                ∙ ap (verify_dinode_ckhash crc s.disk.fs)
                    (get_or-set_same inoblock s.dp new no_dinode lt)
                ∙ verify_dinode_ckhash-update_dinode_ckhash s.disk.fs
                    (get_or inoblock s.dp no_dinode);
            kept =
                subst (λ d. d ≡ record (get_or inoblock s.dp no_dinode) { ckhash = d.ckhash })
                  (sym (
                    ap (λ l. get_or l s.dp no_dinode) (hashed_lem inoblock two)
                    ∙ get_or-set_same inoblock s.dp new no_dinode lt))
                  (update_dinode_ckhash_lem s.disk.fs (get_or inoblock s.dp no_dinode));
            others = λ j ne.
                ap (λ l. get_or l j no_dinode) (hashed_lem inoblock two)
                ∙ get_or-set_other inoblock s.dp j new no_dinode ne;
            status = on_written-Stores (record s { inoblock = some block }) block _ pos_b written.0;
          })
