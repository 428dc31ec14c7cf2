-- ===== src/Prelude/Text.antt =====
-- Texts as the codes of their characters.
use Prim.Native.Nat.{ℕ}
use Prim.Native.Char.{code}
use Prim.Native.String.{String}
use mathlib.Core.Path.{◌≡◌, refl}
use mathlib.Core.Bool.{Bool, true, false, ◌&&◌}
use mathlib.Core.List.{List, [], ◌∷◌}
use native.Mathlib.Omega.{arith}
use klevret.Prelude.Tests.{◌==◌}

-- The characters of an ASCII literal.
abbrev pub text : String → List ℕ
text String.[] = []
text (String.◌∷◌ c s) = code c ∷ text s

-- `operator==` on std::string
abbrev pub eq_text : List ℕ → List ℕ → Bool
eq_text [] [] = true
eq_text (a ∷ s) (b ∷ t) = a == b && eq_text s t
eq_text _ _ = false

pub eq_text_refl : (s : List ℕ) → eq_text s s ≡ true
eq_text_refl [] = refl
eq_text_refl (a ∷ s) = ground (arith, eq_text_refl s)

pub eq_of_eq_text : (s t : List ℕ) → eq_text s t ≡ true → s ≡ t
eq_of_eq_text [] [] h = refl
eq_of_eq_text [] (b ∷ t) h = cc
eq_of_eq_text (a ∷ s) [] h = cc
eq_of_eq_text (a ∷ s) (b ∷ t) h = ground (arith, eq_of_eq_text s t)
