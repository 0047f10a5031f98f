-- ===== src/Base/Text.antt =====
-- Texts of the program's source as lists of characters.
use Prim.Native.Char.{code}
use Prim.Native.String.{String}
use snapclient.Base.{ℕ, List, [], ◌∷◌, Bool, true, false, ◌==◌, ◌&&◌}

abbrev pub codes : String → List ℕ
codes String.[] = []
codes (String.◌∷◌ c s) = code c ∷ codes s

-- `strcmp` gives 0.
abbrev pub same_text : List ℕ → List ℕ → Bool
same_text [] [] = true
same_text (a ∷ s) (b ∷ t) = a == b && same_text s t
same_text [] (b ∷ t) = false
same_text (a ∷ s) [] = false
