-- ===== src/Dirhash/Lookup/Walk.antt =====
-- `ufsdirhash_lookup` of ufsX/ufs/ufs/ufs_dirhash.c against the names of the directory.
use ufson_mac_os.Base.{
  ℕ, zero, suc, ◌-◌, ◌%◌, Bool, true, false, some, ◌≡◌, refl, inl, inr, ◌∙◌, ap,
}
use ufson_mac_os.Base.{leb, if◌then◌else◌, Bool-cases}
use ufson_mac_os.Dirhash.{Entry, empty, del, at, Dirhash, Name, entry, scan, wrap_incr}
use ufson_mac_os.Dirhash.Block.{Directory}
use ufson_mac_os.Dirhash.Lookup.{
  Reply, enoent, mismatch, lost, bytes_eq, found_reply, is_corrupted, on_entry, walk,
}

-- The entry at an offset can be read and has a length that fits its block.
pub record IsSound (dir : Directory) (o : ℕ) : Type 0 where
  pub inside : leb dir.size o ≡ false
  pub block : dir.readable (o - o % dir.iosize) ≡ true
  pub fits : is_corrupted dir o ≡ false

-- Where the search without the expected offset stops.
abbrev pub stops_lookup : Directory → Name → Entry → Bool
stops_lookup dir name empty = true
stops_lookup dir name del = false
stops_lookup dir name (at o) = bytes_eq (dir.direct o).name name

abbrev pub verdict : Directory → Bool → Entry → Reply
verdict dir wants empty = enoent
verdict dir wants del = lost
verdict dir wants (at o) = found_reply dir wants o

some_inj : (a b : ℕ) → some a ≡ some b → a ≡ b
some_inj a b e = cc

module _ (dh : Dirhash) (dir : Directory) (name : Name) (wants : Bool)
    (sound : (s o : ℕ) → entry dh.hash s ≡ at o → IsSound dir o) where
  pub on_entry_sequential :
      (o : ℕ) (rest : Reply)
      → IsSound dir o
      → on_entry dir name wants true (at o) rest
        ≡ (if bytes_eq (dir.direct o).name name then found_reply dir wants o else mismatch)
  unfolding on_entry
  on_entry_sequential o rest z = rw (z.inside, z.block, z.fits) refl

  on_entry_stops :
      (e : Entry) (rest : Reply)
      → ((o : ℕ) → e ≡ at o → IsSound dir o)
      → stops_lookup dir name e ≡ true
      → on_entry dir name wants false e rest ≡ verdict dir wants e
  unfolding on_entry
  on_entry_stops empty rest ok h = refl
  on_entry_stops del rest ok h = cc
  on_entry_stops (at o) rest ok h = let z = ok o refl in rw (z.inside, z.block, z.fits, h) refl

  on_entry_passes :
      (e : Entry) (rest : Reply)
      → ((o : ℕ) → e ≡ at o → IsSound dir o)
      → stops_lookup dir name e ≡ false
      → on_entry dir name wants false e rest ≡ rest
  unfolding on_entry
  on_entry_passes empty rest ok h = cc
  on_entry_passes del rest ok h = refl
  on_entry_passes (at o) rest ok h = let z = ok o refl in rw (z.inside, z.block, z.fits, h) refl

  -- The walk gives the verdict on the slot that a search for the name stops at.
  pub walk-verdict :
      (rounds slot t : ℕ)
      → scan rounds dh.hash dh.hlen (stops_lookup dir name) slot ≡ some t
      → walk rounds dh dir name wants false slot ≡ verdict dir wants (entry dh.hash t)
  unfolding walk scan
  walk-verdict zero slot t e = cc
  walk-verdict (suc rounds) slot t e =
      elim (Bool-cases (stops_lookup dir name (entry dh.hash slot))) [
        | inl h ↦
            let same : slot ≡ t = some_inj slot t (rw h at e) in
            on_entry_stops (entry dh.hash slot) _ (sound slot) h
            ∙ ap (λ s. verdict dir wants (entry dh.hash s)) same
        | inr h ↦
            on_entry_passes (entry dh.hash slot) _ (sound slot) h
            ∙ walk-verdict rounds (wrap_incr dh.hlen slot) t (rw h at e)
      ]
