-- ===== src/Prelude/Text.antt =====
-- Texts as lists of code points, and what the code uses of Go's packages strings and strconv on
-- them. Case is folded for ASCII letters; other code points are left as they are.
pub mod Numbers
pub mod Strings
use Prim.Native.Nat.{ℕ, zero, suc, ◌+◌, ◌-◌, ◌*◌, ◌/◌, ◌%◌}
use Prim.Native.Char.{code}
use Prim.Native.String.{String}
use mathlib.Core.Path.{◌≡◌, refl}
use mathlib.Core.Bool.{Bool, true, false, ◌&&◌, ◌||◌, not}
use mathlib.Core.Option.{Option, none, some}
use mathlib.Core.List.{List, [], ◌∷◌, ◌++◌, reverse}
use native.Mathlib.Omega.{arith}
use test_miti_check.Prelude.Tests.{ltb, leb, eqb, if◌then◌else◌}

abbrev pub Text : Type 0
Text = List ℕ

-- A literal.
unfoldable pub text : String → Text
text String.[] = []
text (String.◌∷◌ c s) = code c ∷ text s

unfoldable pub text_eq : Text → Text → Bool
text_eq [] [] = true
text_eq [] (d ∷ t) = false
text_eq (c ∷ s) [] = false
text_eq (c ∷ s) (d ∷ t) = eqb c d && text_eq s t

pub text_eq→≡ : (s t : Text) → text_eq s t ≡ true → s ≡ t
unfolding text_eq
text_eq→≡ [] [] h = refl
text_eq→≡ [] (d ∷ t) h = ground arith
text_eq→≡ (c ∷ s) [] h = ground arith
text_eq→≡ (c ∷ s) (d ∷ t) h = ground (arith, text_eq→≡ s t)

pub text_eq_self : (s : Text) → text_eq s s ≡ true
unfolding text_eq
text_eq_self [] = refl
text_eq_self (c ∷ s) = ground (arith, text_eq_self s)

abbrev pub is_empty : Text → Bool
is_empty [] = true
is_empty (c ∷ s) = false

-- `unicode.IsSpace`.
unfoldable pub is_space : ℕ → Bool
is_space c =
    (leb 9 c && leb c 13)
    || eqb c 32
    || eqb c 0x85
    || eqb c 0xa0
    || eqb c 0x1680
    || (leb 0x2000 c && leb c 0x200a)
    || eqb c 0x2028
    || eqb c 0x2029
    || eqb c 0x202f
    || eqb c 0x205f
    || eqb c 0x3000

unfoldable pub trim_left : Text → Text
unfolding is_space
trim_left [] = []
trim_left (c ∷ s) = let rest = trim_left s in if is_space c then rest else c ∷ s

-- `strings.TrimSpace`.
unfoldable pub trim_space : Text → Text
unfolding trim_left
trim_space s = reverse (trim_left (reverse (trim_left s)))

-- `strings.Fields`: the words, the current one being `word`, reversed.
unfoldable pub fields_from : Text → Text → List Text
unfolding is_space
fields_from [] word = if is_empty word then [] else reverse word ∷ []
fields_from (c ∷ s) word =
    let next = fields_from s [] in
    let more = fields_from s (c ∷ word) in
    if is_space c then (if is_empty word then next else reverse word ∷ next) else more

unfoldable pub fields : Text → List Text
unfolding fields_from
fields s = fields_from s []

-- `strings.Split` at one code point.
abbrev push_head : ℕ → List Text → List Text
push_head c [] = (c ∷ []) ∷ []
push_head c (w ∷ ws) = (c ∷ w) ∷ ws

unfoldable pub split : ℕ → Text → List Text
split sep [] = [] ∷ []
split sep (c ∷ s) = let rest = split sep s in if eqb c sep then [] ∷ rest else push_head c rest

-- `strings.Cut` at one code point: the parts before and after the first one.
unfoldable pub cut : ℕ → Text → Option (Text × Text)
cut sep [] = none
cut sep (c ∷ s) =
    let rest = cut sep s in
    if eqb c sep then some ([], s) else elim rest [ none ↦ none | some (a, b) ↦ some (c ∷ a, b) ]

-- The parts before and after the last one, as with `strings.LastIndex`.
unfoldable pub cut_last : ℕ → Text → Option (Text × Text)
cut_last sep [] = none
cut_last sep (c ∷ s) =
    let rest = cut_last sep s in
    elim rest [ some (a, b) ↦ some (c ∷ a, b) | none ↦ if eqb c sep then some ([], s) else none ]

-- `strings.HasPrefix` and `strings.TrimPrefix`.
unfoldable pub drop_prefix : Text → Text → Option Text
drop_prefix [] s = some s
drop_prefix (d ∷ p) [] = none
drop_prefix (d ∷ p) (c ∷ s) = let rest = drop_prefix p s in if eqb c d then rest else none

abbrev pub has_prefix : Text → Text → Bool
has_prefix s p = elim (drop_prefix p s) [ none ↦ false | some r ↦ true ]

-- The parts before and after the first occurrence of a text, as with `strings.SplitN(s, sep, 2)`.
unfoldable pub cut_text : Text → Text → Option (Text × Text)
unfolding drop_prefix
cut_text sep [] = none
cut_text sep (c ∷ s) =
    let rest = cut_text sep s in
    elim (drop_prefix sep (c ∷ s)) [
      | some after ↦ some ([], after)
      | none ↦ elim rest [ none ↦ none | some (a, b) ↦ some (c ∷ a, b) ]
    ]

-- `strings.Contains`, for a text that is not empty.
abbrev pub contains : Text → Text → Bool
contains s sub = elim (cut_text sub s) [ none ↦ false | some r ↦ true ]

unfoldable pub lower : ℕ → ℕ
lower c = if leb 65 c && leb c 90 then c + 32 else c

unfoldable pub upper : ℕ → ℕ
upper c = if leb 97 c && leb c 122 then c - 32 else c

-- `strings.ToLower`, `strings.ToUpper` and `strings.EqualFold`.
unfoldable pub to_lower : Text → Text
unfolding lower
to_lower [] = []
to_lower (c ∷ s) = lower c ∷ to_lower s

unfoldable pub to_upper : Text → Text
unfolding upper
to_upper [] = []
to_upper (c ∷ s) = upper c ∷ to_upper s

unfoldable pub equal_fold : Text → Text → Bool
unfolding to_lower text_eq
equal_fold s t = text_eq (to_lower s) (to_lower t)

-- `firstNonEmpty` of api/substrate_aci.go, at two arguments.
abbrev pub first_non_empty : Text → Text → Text
first_non_empty [] t = t
first_non_empty (c ∷ s) t = c ∷ s
