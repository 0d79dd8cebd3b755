-- ===== src/Prelude/Text.antt =====
-- `str.strip`, truth of a text and `str(int)`.
use Prim.Native.Nat.{ℕ, zero, suc, ◌/◌, ◌%◌, ◌<◌}
use Prim.Native.Char.{Char, code}
use Prim.Native.String
use Prim.Native.String.{String}
use mathlib.Core.Path.{◌≡◌, refl}
use mathlib.Core.Bool.{Bool, ◌&&◌, ◌||◌}
use native.Mathlib.Omega.{arith}
use marriage_be.Prelude.Tests.{ltb, leb, ◌==◌, nat_eq, string_eq, if◌then◌else◌}

-- the code points of `str.isspace`
abbrev is_space : ℕ → Bool
is_space c =
    (leb 9 c && leb c 13)
    || (leb 28 c && leb c 32)
    || c == 0x85
    || c == 0xa0
    || c == 0x1680
    || (leb 0x2000 c && leb c 0x200a)
    || c == 0x2028
    || c == 0x2029
    || c == 0x202f
    || c == 0x205f
    || c == 0x3000

lstrip : String → String
lstrip String.[] = String.[]
lstrip (String.◌∷◌ c s) = let rest = lstrip s in if is_space (code c) then rest else String.◌∷◌ c s

put_left : Char → String → String
put_left c String.[] = if is_space (code c) then String.[] else String.◌∷◌ c String.[]
put_left c (String.◌∷◌ d s) = String.◌∷◌ c (String.◌∷◌ d s)

rstrip : String → String
unfolding put_left
rstrip String.[] = String.[]
rstrip (String.◌∷◌ c s) = put_left c (rstrip s)

unfoldable pub strip : String → String
unfolding lstrip rstrip
strip s = rstrip (lstrip s)

abbrev digit : ℕ → String
digit d =
    if d == 0
    then "0"
    else if d == 1
    then "1"
    else if d == 2
    then "2"
    else if d == 3
    then "3"
    else if d == 4
    then "4"
    else if d == 5
    then "5"
    else if d == 6
    then "6"
    else if d == 7
    then "7"
    else if d == 8
    then "8"
    else "9"

-- more rounds than the number has digits
decimal_from : ℕ → ℕ → String → String
decimal_from zero n acc = acc
decimal_from (suc rounds) n acc =
    let shown = String.◌++◌ (digit (n % 10)) acc in
    let rest = decimal_from rounds (n / 10) shown in if ltb n 10 then shown else rest

-- `str(n)` of a number that is not negative
unfoldable pub decimal : ℕ → String
unfolding decimal_from
decimal n = decimal_from (suc n) n ""

-- Any number of rounds above `n` writes the same digits: the loop never runs out of them.
decimal_from-rounds :
    (f g n : ℕ) (acc : String) → n < f → n < g → decimal_from f n acc ≡ decimal_from g n acc
unfolding decimal_from
decimal_from-rounds zero g n acc h k = absurd (omega arith)
decimal_from-rounds (suc f) zero n acc h k = absurd (omega arith)
decimal_from-rounds (suc f) (suc g) n acc h k =
    ground (arith, decimal_from-rounds f g (n / 10) (String.◌++◌ (digit (n % 10)) acc))

decimal-3600 : decimal 3600 ≡ "3600"
unfolding decimal
decimal-3600 = refl

strip_both_ends : strip "  a b\n " ≡ "a b"
unfolding strip
strip_both_ends = refl
