-- ===== src/Prelude/Text/Strings.antt =====
-- Between the stored strings and the lists of code points.
use Prim.Native.Nat.{ℕ, compare, Ordering}
use Prim.Native.Char.{Char, char}
use Prim.Native.String.{String}
use mathlib.Core.Path.{◌≡◌, refl}
use mathlib.Core.List.{[], ◌∷◌}
use test_miti_check.Prelude.Text.{Text}

-- The replacement character stands for what is no Unicode scalar value.
abbrev replacement : Char
replacement = char 65533 tt

unfoldable scalar_at :
    (n : ℕ) (o p q : Ordering)
    → compare n 55296 ≡ o
    → compare 57343 n ≡ p
    → compare n 1114112 ≡ q
    → Char
scalar_at n Ordering.lt p q e f g = char n (rw e tt)
scalar_at n Ordering.gt Ordering.lt Ordering.lt e f g = char n (rw (e, f, g) tt)
scalar_at n _ _ _ e f g = replacement

unfoldable pub character : ℕ → Char
unfolding scalar_at
character n = scalar_at n (compare n 55296) (compare 57343 n) (compare n 1114112) refl refl refl

-- The string of a text.
unfoldable pub string : Text → String
unfolding character
string [] = String.[]
string (c ∷ s) = String.◌∷◌ (character c) (string s)
