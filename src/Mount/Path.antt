-- ===== src/Mount/Path.antt =====
-- Paths before and after `rmslashes` of mount_ufs/getmntopts.c: their components and their slashes.
use ufson_mac_os.Base.{ℕ, ◌<◌, true, ◌&&◌, List, [], ◌∷◌, ◌++◌, ltb, ◌==◌, if◌then◌else◌, length}
use ufson_mac_os.Base.{◌≡◌, ◌≢◌, refl, ap, sym, subst, ◌∙◌, arith, inl, inr, Bool-cases}
use ufson_mac_os.Mount.{slash, squeeze, last, drop_last, trim, rmslashes}

-- A word that is not empty goes before the others.
abbrev pub flush : List ℕ → List (List ℕ) → List (List ℕ)
flush [] words = words
flush (c ∷ w) words = (c ∷ w) ∷ words

-- The components of a path, with `w` read of the first.
unfoldable pub components : List ℕ → List ℕ → List (List ℕ)
components w [] = flush w []
components w (c ∷ s) =
    let next = components [] s in
    let more = components (w ++ c ∷ []) s in if c == slash then flush w next else more

-- No slash follows a slash.
abbrev pub IsSingle : List ℕ → Type 0
IsSingle [] = Unit {0}
IsSingle (c ∷ []) = Unit {0}
IsSingle (c ∷ d ∷ s) = ((c ≡ slash) → d ≢ slash) × IsSingle (d ∷ s)

squeeze-components : (w s : List ℕ) → components w (squeeze s) ≡ components w s
unfolding squeeze components
squeeze-components w [] = refl
squeeze-components w (c ∷ []) = refl
squeeze-components w (c ∷ d ∷ s) = elim (Bool-cases (c == slash)) [
  | inl t ↦ elim (Bool-cases (d == slash)) [
    | inl u ↦ rw (t, u, squeeze-components w (d ∷ s)) (rw u refl)
    | inr v ↦ rw (t, v, t, squeeze-components [] (d ∷ s), v) refl
  ]
  | inr f ↦ rw (f, f, squeeze-components (w ++ c ∷ []) (d ∷ s)) refl
]

-- The first character stays.
head-squeeze : (d : ℕ) (s : List ℕ) → (t : List ℕ) × (squeeze (d ∷ s) ≡ d ∷ t)
unfolding squeeze
head-squeeze d [] = ([], refl)
head-squeeze d (e ∷ s) = elim (Bool-cases (d == slash && e == slash)) [
  | inl t ↦
      let (rest, q) = head-squeeze e s in
      let same : e ≡ d = ground arith in (rest, rw t (q ∙ ap (λ x. x ∷ rest) same))
  | inr f ↦ (squeeze (e ∷ s), rw f refl)
]

IsSingle-cons :
    (c d : ℕ) (t : List ℕ)
    → ((c ≡ slash) → d ≢ slash)
    → IsSingle t
    → (u : List ℕ) → t ≡ d ∷ u
    → IsSingle (c ∷ t)
IsSingle-cons c d t apart h u e = subst (λ x. IsSingle (c ∷ x)) (sym e) (apart, subst IsSingle e h)

squeeze-IsSingle : (s : List ℕ) → IsSingle (squeeze s)
unfolding squeeze
squeeze-IsSingle [] = tt
squeeze-IsSingle (c ∷ []) = tt
squeeze-IsSingle (c ∷ d ∷ s) = elim (Bool-cases (c == slash && d == slash)) [
  | inl t ↦ rw t (squeeze-IsSingle (d ∷ s))
  | inr f ↦
      let (u, e) = head-squeeze d s in
      let apart : (c ≡ slash) → d ≢ slash = λ p q. ground arith in
      rw f (IsSingle-cons c d (squeeze (d ∷ s)) apart (squeeze-IsSingle (d ∷ s)) u e)
]

drop_last-IsSingle : (s : List ℕ) → IsSingle s → IsSingle (drop_last s)
drop_last-IsSingle [] h = tt
drop_last-IsSingle (c ∷ []) h = tt
drop_last-IsSingle (c ∷ d ∷ []) h = tt
drop_last-IsSingle (c ∷ d ∷ e ∷ s) h = (h.0, drop_last-IsSingle (d ∷ e ∷ s) h.1)

drop_last-components : (w s : List ℕ) → last s ≡ slash → components w (drop_last s) ≡ components w s
unfolding components
drop_last-components w [] h = refl
drop_last-components w (c ∷ []) h = let is : c == slash ≡ true = ground arith in rw is refl
drop_last-components w (c ∷ d ∷ s) h =
    rw (drop_last-components [] (d ∷ s) h, drop_last-components (w ++ c ∷ []) (d ∷ s) h) refl

-- Without its last slash a path has none at its end.
last-drop_last : (s : List ℕ) → IsSingle s → last s ≡ slash → last (drop_last s) ≢ slash
last-drop_last [] single h = λ e. ground arith
last-drop_last (c ∷ []) single h = λ e. ground arith
last-drop_last (c ∷ d ∷ []) single h = λ e. single.0 e h
last-drop_last (c ∷ d ∷ e ∷ s) single h = last-drop_last (d ∷ e ∷ s) single.1 h

abbrev pub first : List ℕ → ℕ
first [] = 0
first (c ∷ s) = c

first-squeeze : (s : List ℕ) → first (squeeze s) ≡ first s
unfolding squeeze
first-squeeze [] = refl
first-squeeze (d ∷ s) = let (t, e) = head-squeeze d s in ap first e

first-drop_last : (s : List ℕ) → 1 < length s → first (drop_last s) ≡ first s
first-drop_last [] h = absurd (omega arith)
first-drop_last (c ∷ []) h = absurd (omega arith)
first-drop_last (c ∷ d ∷ s) h = refl

-- What `rmslashes` makes of a path.
pub record Normalises (s t : List ℕ) : Type 0 where
  pub words : components [] t ≡ components [] s
  pub start : first t ≡ first s
  pub single : IsSingle t
  pub ended : 1 < length t → last t ≢ slash

trim-Normalises :
    (s t : List ℕ)
    → components [] t ≡ components [] s
    → first t ≡ first s
    → IsSingle t
    → Normalises s (trim t)
unfolding trim
trim-Normalises s t words start single = elim (Bool-cases (ltb 1 (length t) && last t == slash)) [
  | inl y ↦
      let at : last t ≡ slash = ground arith in
      rw y (record {
        words = drop_last-components [] t at ∙ words;
        start = first-drop_last t (ground arith) ∙ start;
        single = drop_last-IsSingle t single;
        ended = λ lt. last-drop_last t single at;
      })
  | inr n ↦
      rw n (record { words = words; start = start; single = single; ended = λ lt e. ground arith })
]

-- `rmslashes` keeps the components of a path and its first character, and leaves no slash after a slash, nor a slash at the
-- end of a path longer than one character.
pub rmslashes-Normalises : (s : List ℕ) → Normalises s (rmslashes s)
unfolding rmslashes
rmslashes-Normalises s =
    trim-Normalises s (squeeze s) (squeeze-components [] s) (first-squeeze s) (squeeze-IsSingle s)
