-- ===== src/Waf/Quoting.antt =====
-- What `extractRx` of api/executor.go answers on a rule whose operator is written with backslashes.
use test_miti_check.Prelude.{arith, ◌≡◌, refl, false, some, [], ◌∷◌, ◌++◌, eqb, All, if◌then◌else◌}
use test_miti_check.Prelude.Text.{Text, cut}
use test_miti_check.Waf.Pattern.{is_special, quoted, operator, extract_rx}

-- The serialization of a quoted operator.
unfoldable pub escape : Text → Text
escape [] = []
escape (c ∷ s) = let rest = escape s in if is_special c then 92 ∷ c ∷ rest else c ∷ rest

quoted-escape : (op rest : Text) → quoted false (escape op ++ 34 ∷ rest) ≡ some op
unfolding quoted escape
quoted-escape [] rest = refl
quoted-escape (c ∷ op) rest = ground (arith, quoted-escape op rest)

abbrev pub IsPlain : Text → Type 0
IsPlain s = All (λ c. eqb c 34 ≡ false) s

cut-plain :
    (before rest : Text) → IsPlain before → cut 34 (before ++ 34 ∷ rest) ≡ some (before, rest)
unfolding cut
cut-plain [] rest h = refl
cut-plain (c ∷ before) rest (p, h) = let e = cut-plain before rest h in rw (p, e) refl

-- A rule whose text has no double quote before its operator, which is written with a backslash
-- before each backslash and each double quote and closed by a double quote, yields the pattern of
-- exactly that operator, whatever follows.
pub extract_rx-escape :
    (before op rest : Text)
    → IsPlain before
    → extract_rx (before ++ 34 ∷ (escape op ++ 34 ∷ rest)) ≡ operator op
unfolding extract_rx
extract_rx-escape before op rest h =
    rw (cut-plain before (escape op ++ 34 ∷ rest) h, quoted-escape op rest) refl
