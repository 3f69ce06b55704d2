-- ===== src/Dirhash/Lookup/Names.antt =====
-- The comparison of names in ufsX/ufs/ufs/ufs_dirhash.c.
use ufson_mac_os.Base.{true, [], ◌∷◌, ◌≡◌, refl, arith}
use ufson_mac_os.Dirhash.{Name}
use ufson_mac_os.Dirhash.Lookup.{bytes_eq}

pub bytes_eq_sound : (a b : Name) → bytes_eq a b ≡ true → a ≡ b
unfolding bytes_eq
bytes_eq_sound [] [] h = refl
bytes_eq_sound [] (c ∷ b) h = cc
bytes_eq_sound (c ∷ a) [] h = cc
bytes_eq_sound (c ∷ a) (d ∷ b) h = ground (arith, bytes_eq_sound a b)

pub bytes_eq_refl : (a : Name) → bytes_eq a a ≡ true
unfolding bytes_eq
bytes_eq_refl [] = refl
bytes_eq_refl (c ∷ a) = ground (arith, bytes_eq_refl a)
