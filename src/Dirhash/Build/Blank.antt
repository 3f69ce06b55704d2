-- ===== src/Dirhash/Build/Blank.antt =====
-- The tables that `ufsdirhash_build` of ufsX/ufs/ufs/ufs_dirhash.c starts with.
use ufson_mac_os.Base.{
  ℕ, zero, suc, ◌+◌, ◌*◌, ◌/◌, ◌≤◌, ◌<◌, Option, none, some, List, ◌≡◌, refl, arith, inl, inr, sym,
  subst, ap, ◌∙◌,
}
use ufson_mac_os.Base.{
  ◌==◌, if◌then◌else◌, Bool-cases, get_or, get_or-set, length, length-set, replicate, set,
}
use ufson_mac_os.Base.Count.{count_below}
use ufson_mac_os.Libufs.Cgroup.Search.{Finds}
use ufson_mac_os.Dirhash.{empty, at, entry, nfstats, first_of}
use ufson_mac_os.Dirhash.Valid.{in_use, IsValid, Holds}
use ufson_mac_os.Dirhash.Words.{all_words}
use ufson_mac_os.Dirhash.Words.Indexed.{in_class, IsIndexed}
use ufson_mac_os.Dirhash.Build.{blank, nblkoff}

length-replicate {ℓ} : {A : Type ℓ} (n : ℕ) (x : A) → length (replicate n x) ≡ n
length-replicate zero x = refl
length-replicate (suc n) x = ap suc (length-replicate n x)

get_or-replicate {ℓ} : {A : Type ℓ} (n i : ℕ) (x : A) → get_or (replicate n x) i x ≡ x
get_or-replicate zero i x = refl
get_or-replicate (suc n) zero x = refl
get_or-replicate (suc n) (suc i) x = get_or-replicate n i x

get_or-replicate_in {ℓ} : {A : Type ℓ} (n i : ℕ) (x d : A) → i < n → get_or (replicate n x) i d ≡ x
get_or-replicate_in zero i x d low = absurd (omega arith)
get_or-replicate_in (suc n) zero x d low = refl
get_or-replicate_in (suc n) (suc i) x d low = get_or-replicate_in n i x d (omega arith)

no_use : (n m : ℕ) → 0 ≡ count_below m (in_use (replicate n empty))
unfolding count_below
no_use n zero = refl
no_use n (suc m) = rw (get_or-replicate n m empty) (omega (arith, no_use n m))

module _ (narrays dirblocks : ℕ) (some_array : 0 < narrays) where
  not_held : (s o : ℕ) → ¬ (entry (replicate (narrays * nblkoff) empty) s ≡ at o)
  not_held s o e =
      absurd (let bare = get_or-replicate (narrays * nblkoff) s empty in let c = sym bare ∙ e in cc)

  pub blank-IsValid :
      (home : ℕ → ℕ)
      → ((o : ℕ) → home o < narrays * nblkoff)
      → IsValid (blank narrays dirblocks) home × ((o : ℕ) → ¬ Holds (blank narrays dirblocks) o)
  unfolding blank
  blank-IsValid home homes = (
    record {
      table = record {
        sized = length-replicate (narrays * nblkoff) empty;
        counted = no_use (narrays * nblkoff) (narrays * nblkoff);
        homes = homes;
        chained = λ s o j low e short. absurd (not_held s o e);
        once = λ s t o ls lt es et. absurd (not_held s o es);
      };
      room = omega arith;
    },
    λ o (s, low, e). not_held s o e,
  )

  pub blank-IsIndexed : 0 < dirblocks → IsIndexed (blank narrays dirblocks)
  unfolding blank
  blank-IsIndexed some_block = record {
    classes = length-set {A = Option ℕ} (replicate (nfstats + 1) none) nfstats (some 0);
    blocks = length-replicate ((dirblocks * 3 + 1) / 2) all_words;
    within = omega arith;
    first = λ i le. first i le;
  }
    where
      words : List ℕ
      words = replicate ((dirblocks * 3 + 1) / 2) all_words

      index : List (Option ℕ)
      index = set (replicate (nfstats + 1) none) nfstats (some 0)

      at_index :
          (i : ℕ)
          → first_of index i
            ≡ (if i == nfstats then some 0 else first_of (replicate (nfstats + 1) none) i)
      at_index i =
          get_or-set {A = Option ℕ} (replicate (nfstats + 1) none) nfstats i (some 0) none
            (omega arith)

      all_same : (j : ℕ) → j < dirblocks → get_or words j 0 ≡ all_words
      all_same j low = get_or-replicate_in ((dirblocks * 3 + 1) / 2) j all_words 0 (omega arith)

      first : (i : ℕ) → i ≤ nfstats → Finds (in_class words i) dirblocks (first_of index i)
      first i le = elim (Bool-cases (i == nfstats)) [
        | inl y ↦
            let last : i ≡ nfstats = ground arith in
            let top : first_of index i ≡ some 0 = ground (arith, at_index i) in
            subst (Finds (in_class words i) dirblocks) (sym top) (record {
              below = some_block;
              holds = ground (arith, all_same 0 some_block);
              before = λ j lt. absurd (omega arith);
            })
        | inr f ↦
            let bare : first_of index i ≡ none =
              ground (arith, at_index i, get_or-replicate {A = Option ℕ} (nfstats + 1) i none) in
            subst (Finds (in_class words i) dirblocks) (sym bare)
              (λ j low. ground (arith, all_same j low))
      ]
