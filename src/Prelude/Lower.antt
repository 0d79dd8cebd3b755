-- ===== src/Prelude/Lower.antt =====
-- `str.lower`, as far as a comparison with ASCII text sees it, and the order of texts.
use Prim.Native.Nat.{ℕ, ◌+◌}
use Prim.Native.Char.{code}
use Prim.Native.String.{String}
use mathlib.Core.Bool.{Bool, true, false, ◌&&◌, ◌||◌}
use mathlib.Core.List.{List, [], ◌∷◌}
use marriage_be.Prelude.Tests.{leb, ltb, ◌==◌, nat_eq, if◌then◌else◌}

-- Besides A to Z, the letters whose lower case has an ASCII letter: KELVIN SIGN, and I WITH DOT
-- ABOVE, which becomes two code points.
lower_code : ℕ → ℕ
lower_code c = if leb 65 c && leb c 90 then c + 32 else if c == 0x212a then 107 else c

unfoldable pub lower : String → List ℕ
unfolding lower_code
lower String.[] = []
lower (String.◌∷◌ c s) =
    let rest = lower s in if code c == 0x130 then 105 ∷ 0x307 ∷ rest else lower_code (code c) ∷ rest

unfoldable pub starts_with : (prefix text : List ℕ) → Bool
starts_with [] text = true
starts_with (p ∷ ps) [] = false
starts_with (p ∷ ps) (c ∷ cs) = p == c && starts_with ps cs

-- `wanted in text`
unfoldable pub contains : (wanted text : List ℕ) → Bool
unfolding starts_with
contains wanted [] = starts_with wanted []
contains wanted (c ∷ cs) = starts_with wanted (c ∷ cs) || contains wanted cs

-- `a <= b`, by code points
unfoldable pub text_leq : (a b : String) → Bool
text_leq String.[] t = true
text_leq (String.◌∷◌ c s) String.[] = false
text_leq (String.◌∷◌ c s) (String.◌∷◌ d t) =
    let rest = text_leq s t in ltb (code c) (code d) || (code c == code d && rest)
