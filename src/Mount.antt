-- ===== src/Mount.antt =====
-- `rmslashes` of mount_ufs/getmntopts.c, on the characters of a path up to its end.
pub mod Path
use ufson_mac_os.Base.{ℕ, Bool, true, false, ◌&&◌, List, [], ◌∷◌, ltb, ◌==◌, if◌then◌else◌, length}

-- `'/'`
abbrev pub slash : ℕ
slash = 47

-- The loop: a slash before a slash is passed over.
pub squeeze : List ℕ → List ℕ
squeeze [] = []
squeeze (c ∷ []) = c ∷ []
squeeze (c ∷ d ∷ s) =
    let rest = squeeze (d ∷ s) in if c == slash && d == slash then rest else c ∷ rest

abbrev pub last : List ℕ → ℕ
last [] = 0
last (c ∷ []) = c
last (c ∷ d ∷ s) = last (d ∷ s)

abbrev pub drop_last : List ℕ → List ℕ
drop_last [] = []
drop_last (c ∷ []) = []
drop_last (c ∷ d ∷ s) = c ∷ drop_last (d ∷ s)

-- The trailing slash.
pub trim : List ℕ → List ℕ
trim out = if ltb 1 (length out) && last out == slash then drop_last out else out

pub rmslashes : List ℕ → List ℕ
rmslashes rrpin = trim (squeeze rrpin)
