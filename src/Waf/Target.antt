-- ===== src/Waf/Target.antt =====
-- The targets of a SecRule in api/executor.go: `parseTargets` and the values that a target selects
-- from a request. Go's package net/url is a parameter: `url.ParseQuery`, the query of
-- `url.ParseRequestURI` and `url.QueryUnescape`. A map is the list of its entries.
use test_miti_check.Prelude.{
  Bool, true, false, Option, none, some, List, [], ◌∷◌, ◌++◌, ◌||◌, not, eqb, ltb, length,
  if◌then◌else◌,
}
use test_miti_check.Prelude.Text.{Text, text, text_eq, is_empty, drop_prefix, has_prefix, split}
use test_miti_check.Prelude.Results.{Result, ok, err}
use test_miti_check.Request.{TestRequest}

abbrev pub Values : Type 0
Values = List (Text × List Text)

pub record Url : Type 0 where
  pub parse_query : Text → Option Values
  pub request_query : Text → Option Values
  pub query_unescape : Text → Option Text

pub data TargetError : Type 0 where
  too_many : TargetError
  unsupported : Text → TargetError

abbrev pub args_prefix : Text
args_prefix = b'A' ∷ b'R' ∷ b'G' ∷ b'S' ∷ b':' ∷ []

unfoldable pub supported_target : Text → Bool
unfolding text_eq text drop_prefix
supported_target target = elim (drop_prefix args_prefix target) [
  | some name ↦ not (is_empty name)
  | none ↦
      text_eq target (text "REQUEST_BODY")
      || text_eq target (text "REQUEST_URI")
      || text_eq target (text "REQUEST_HEADERS")
      || text_eq target (text "ARGS")
      || text_eq target (text "ARGS_NAMES")
]

abbrev pub refused : Text → Bool
refused target = is_empty target || has_prefix target (b'!' ∷ []) || not (supported_target target)

-- The first target that is refused.
unfoldable pub first_refused : List Text → Option Text
unfolding supported_target drop_prefix
first_refused [] = none
first_refused (t ∷ targets) =
    let later = first_refused targets in if refused t then some t else later

-- `parseTargets`.
unfoldable pub parse_targets : Text → Result TargetError (List Text)
unfolding split first_refused
parse_targets expression =
    let parts = split b'|' expression in
    if ltb 16 (length parts)
    then err too_many
    else elim (first_refused parts) [ some t ↦ err (unsupported t) | none ↦ ok parts ]

-- The order of `sort.Strings`.
unfoldable pub text_leb : Text → Text → Bool
text_leb [] t = true
text_leb (c ∷ s) [] = false
text_leb (c ∷ s) (d ∷ t) =
    let rest = text_leb s t in if ltb c d then true else if eqb c d then rest else false

-- `sort.Strings`.
unfoldable pub insert_text : Text → List Text → List Text
unfolding text_leb
insert_text s [] = s ∷ []
insert_text s (t ∷ ts) =
    let rest = insert_text s ts in if text_leb s t then s ∷ t ∷ ts else t ∷ rest

unfoldable pub sort_texts : List Text → List Text
unfolding insert_text
sort_texts [] = []
sort_texts (s ∷ ts) = insert_text s (sort_texts ts)

module _ {ℓ} {A : Type ℓ} where
  unfoldable pub names : List (Text × A) → List Text
  names [] = []
  names ((k, v) ∷ entries) = k ∷ names entries

  -- `m[name]`, with the zero value for a missing name.
  unfoldable pub lookup : A → Text → List (Text × A) → A
  unfolding text_eq
  lookup zero_value name [] = zero_value
  lookup zero_value name ((k, v) ∷ entries) =
      let rest = lookup zero_value name entries in if text_eq k name then v else rest

-- `arguments[name] = append(arguments[name], entries...)`.
unfoldable pub add_entries : Text → List Text → Values → Values
unfolding text_eq
add_entries name entries [] = (name, entries) ∷ []
add_entries name entries ((k, v) ∷ values) =
    let rest = add_entries name entries values in
    if text_eq k name then (k, v ++ entries) ∷ values else (k, v) ∷ rest

unfoldable pub merge : Values → Values → Values
unfolding add_entries
merge arguments [] = arguments
merge arguments ((name, entries) ∷ values) = merge (add_entries name entries arguments) values

abbrev merge_parsed : Values → Option Values → Values
merge_parsed arguments none = arguments
merge_parsed arguments (some values) = merge arguments values

unfoldable pub header_values : List (Text × Text) → List Text → List Text
unfolding lookup
header_values headers [] = []
header_values headers (name ∷ ns) = lookup [] name headers ∷ header_values headers ns

unfoldable pub argument_values : Values → List Text → List Text
unfolding lookup
argument_values arguments [] = []
argument_values arguments (name ∷ ns) = lookup [] name arguments ++ argument_values arguments ns

module _ (url : Url) where
  -- `requestArguments`.
  unfoldable pub request_arguments : TestRequest → Values
  unfolding merge
  request_arguments r =
      merge_parsed (merge_parsed [] (url.parse_query r.body)) (url.request_query r.path)

  -- `urlDecode`.
  unfoldable pub url_decode : Text → Text
  url_decode s = elim (url.query_unescape s) [ some d ↦ d | none ↦ s ]

  -- `targetValuesForOne`.
  unfoldable pub values_for_one : Text → TestRequest → List Text
  unfolding request_arguments sort_texts names header_values argument_values text_eq text
      drop_prefix
  values_for_one target r =
      if text_eq target (text "REQUEST_BODY")
      then r.body ∷ []
      else if text_eq target (text "REQUEST_URI")
      then r.path ∷ []
      else if text_eq target (text "REQUEST_HEADERS")
      then header_values r.headers (sort_texts (names r.headers))
      else if text_eq target (text "ARGS_NAMES")
      then sort_texts (names (request_arguments r))
      else if text_eq target (text "ARGS")
      then argument_values (request_arguments r) (sort_texts (names (request_arguments r)))
      else elim (drop_prefix args_prefix target) [
        | some name ↦ lookup [] name (request_arguments r)
        | none ↦ []
      ]

  -- `targetValues`.
  unfoldable pub target_values : List Text → TestRequest → List Text
  unfolding values_for_one
  target_values [] r = []
  target_values (t ∷ targets) r = values_for_one t r ++ target_values targets r
