-- ===== src/Waf/Pattern.antt =====
-- What `compileRule` of api/executor.go finds in the text of a SecRule: the regular expressions
-- `reTarget`, `reRuleID`, `reStatus` and `reQuant` as scanners, `extractRx` and `clampRE2Repeats`.
use test_miti_check.Prelude.{
  ℕ, zero, suc, ◌+◌, Bool, true, false, Option, none, some, [], ◌∷◌, ◌++◌, ◌&&◌, ◌||◌, not, eqb,
  leb, ltb, length, if◌then◌else◌,
}
use test_miti_check.Prelude.Text.{Text, text, drop_prefix, cut, trim_space}
use test_miti_check.Prelude.Text.Numbers.{pos, negsuc, atoi, decimal, max_int}
use test_miti_check.Prelude.Options.{◌>>=◌}

-- The classes `\d`, `\s` and `\w` of the regular expressions.
abbrev pub is_digit : ℕ → Bool
is_digit c = leb 48 c && leb c 57

abbrev pub is_blank : ℕ → Bool
is_blank c = eqb c 9 || eqb c 10 || eqb c 12 || eqb c 13 || eqb c 32

abbrev pub is_word : ℕ → Bool
is_word c = is_digit c || (leb 65 c && leb c 90) || eqb c 95 || (leb 97 c && leb c 122)

-- The longest prefix of a class, and what follows it.
unfoldable pub span : (ℕ → Bool) → Text → Text × Text
span p [] = ([], [])
span p (c ∷ s) = let rest = span p s in if p c then (c ∷ rest.0, rest.1) else ([], c ∷ s)

-- A run of at least one, and what follows it.
abbrev nonempty : Text × Text → Option (Text × Text)
nonempty ([], rest) = none
nonempty (c ∷ run, rest) = some (c ∷ run, rest)

unfoldable pub run : (ℕ → Bool) → Text → Option (Text × Text)
unfolding span
run p s = nonempty (span p s)

-- `\s*SecRule\s+(\S+)\s+` at the start of a text: the group.
unfoldable pub sec_rule : Text → Option Text
unfolding span run drop_prefix text
sec_rule s = do
  after ← drop_prefix (text "SecRule") ((span is_blank s).1)
  gap ← run is_blank after
  target ← run (λ c. not (is_blank c)) (gap.1)
  behind ← run is_blank (target.1)
  some (target.0)

-- `reTarget.FindStringSubmatch`: the group at the first line that has it.
unfoldable pub target_from : Bool → Text → Option Text
unfolding sec_rule
target_from start [] = none
target_from start (c ∷ s) =
    let later = target_from (eqb c 10) s in
    elim (if start then sec_rule (c ∷ s) else none) [ some target ↦ some target | none ↦ later ]

unfoldable pub find_target : Text → Option Text
unfolding target_from
find_target rule = target_from true rule

-- `key(\d+)` at the start of a text: the digits.
unfoldable pub key_digits : Text → Text → Option Text
unfolding run drop_prefix
key_digits key s = do after ← drop_prefix key s; digits ← run is_digit after; some (digits.0)

-- `\bkey(\d+)` for a key that starts with a letter. The flag tells that a word character stands
-- before.
unfoldable pub number_from : Text → Bool → Text → Option Text
unfolding key_digits
number_from key inside [] = none
number_from key inside (c ∷ s) =
    let later = number_from key (is_word c) s in
    elim (if inside then none else key_digits key (c ∷ s)) [
      | some digits ↦ some digits
      | none ↦ later
    ]

-- `reRuleID` and `reStatus`.
unfoldable pub find_id : Text → Option Text
unfolding number_from text
find_id rule = number_from (text "id:") false rule

unfoldable pub find_status : Text → Option Text
unfolding number_from text
find_status rule = number_from (text "status:") false rule

-- `strconv.Atoi` of a run of digits, whose only error is of a number out of range, with which it
-- answers the greatest one.
unfoldable pub bound : Text → ℕ
unfolding atoi
bound digits = elim (atoi digits) [ some (pos n) ↦ n | some (negsuc n) ↦ 0 | none ↦ max_int ]

-- A match of `reQuant`: the least count, the part from the comma on, and the length of the match
-- after its brace.
pub data Upper : Type 0 where
  exactly at_least : Upper
  up_to : Text → Upper

pub record Quantifier : Type 0 where
  pub low : Text
  pub upper : Upper
  pub size : ℕ

abbrev closed : Text → Upper → ℕ → Text → Option Quantifier
closed low upper size [] = none
closed low upper size (c ∷ s) =
    if eqb c b'}' then some (record { low = low; upper = upper; size = suc size }) else none

abbrev limited : Text → Text × Text → Option Quantifier
limited low ([], rest) = closed low at_least (length low + 1) rest
limited low (c ∷ high, rest) =
    closed low (up_to (c ∷ high)) (length low + 1 + length (c ∷ high)) rest

abbrev bounded : Text → Text → Option Quantifier
bounded low [] = none
bounded low (c ∷ s) =
    if eqb c b',' then limited low (span is_digit s) else closed low exactly (length low) (c ∷ s)

-- What follows an opening brace.
unfoldable pub quantifier : Text → Option Quantifier
unfolding span run
quantifier s = do low ← run is_digit s; bounded (low.0) (low.1)

-- `re2MaxRepeat`.
abbrev pub max_repeat : ℕ
max_repeat = 1000

abbrev pub clamp : ℕ → ℕ
clamp n = if ltb max_repeat n then max_repeat else n

unfoldable pub print_upper : Upper → Text
unfolding bound decimal
print_upper exactly = b'}' ∷ []
print_upper at_least = b',' ∷ b'}' ∷ []
print_upper (up_to high) = b',' ∷ decimal (clamp (bound high)) ++ (b'}' ∷ [])

unfoldable pub print : Quantifier → Text
unfolding bound decimal print_upper
print q = b'{' ∷ decimal (clamp (bound q.low)) ++ print_upper q.upper

unfoldable pub exceeds : Quantifier → Bool
unfolding bound
exceeds q = ltb max_repeat (bound q.low) || elim (q.upper) [
  | exactly ↦ false
  | at_least ↦ false
  | up_to high ↦ ltb max_repeat (bound high)
]

-- `clampRE2Repeats`, with a count of the characters that the last match takes.
unfoldable pub clamp_from : ℕ → Text → Text × Bool
unfolding quantifier print exceeds
clamp_from n [] = ([], false)
clamp_from (suc n) (c ∷ s) = clamp_from n s
clamp_from zero (c ∷ s) = elim (if eqb c b'{' then quantifier s else none) [
  | none ↦ let rest = clamp_from zero s in (c ∷ rest.0, rest.1)
  | some q ↦ let rest = clamp_from (q.size) s in (print q ++ rest.0, exceeds q || rest.1)
]

unfoldable pub clamp_repeats : Text → Text × Bool
unfolding clamp_from
clamp_repeats pattern = clamp_from zero pattern

-- One character of the operator, in front of the rest.
abbrev push : ℕ → Option Text → Option Text
push c none = none
push c (some s) = some (c ∷ s)

-- A backslash and a double quote are written with a backslash before them.
abbrev pub is_special : ℕ → Bool
is_special c = eqb c 92 || eqb c 34

-- The text up to the closing quote, decoded. The flag tells that a backslash is pending.
unfoldable pub quoted : Bool → Text → Option Text
quoted pending [] = none
quoted pending (c ∷ s) =
    let rest = quoted (not pending && eqb c 92) s in
    if pending
    then (if is_special c then push c rest else push 92 (push c rest))
    else if eqb c 92
    then rest
    else if eqb c 34
    then some []
    else push c rest

-- The pattern of an operator `@rx`.
unfoldable pub operator : Text → Option Text
unfolding drop_prefix trim_space text
operator s = do pattern ← drop_prefix (text "@rx") (trim_space s); some (trim_space pattern)

-- `extractRx`.
unfoldable pub extract_rx : Text → Option Text
unfolding cut quoted operator
extract_rx rule = do parts ← cut 34 rule; op ← quoted false (parts.1); operator op
