-- ===== src/Tests/Mount.antt =====
-- The path "//a//b/".
use ufson_mac_os.Base.{[], ◌∷◌}
use ufson_mac_os.Mount.{rmslashes}
use ufson_mac_os.Mount.Path.{Normalises, rmslashes-Normalises}

rmslashes-Normalises_example :
    Normalises
      (47 ∷ 47 ∷ 97 ∷ 47 ∷ 47 ∷ 98 ∷ 47 ∷ [])
      (rmslashes (47 ∷ 47 ∷ 97 ∷ 47 ∷ 47 ∷ 98 ∷ 47 ∷ []))
rmslashes-Normalises_example = rmslashes-Normalises (47 ∷ 47 ∷ 97 ∷ 47 ∷ 47 ∷ 98 ∷ 47 ∷ [])
