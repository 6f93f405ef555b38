-- ===== src/Upstream/Stimulus.antt =====
-- api/stimulus.go. The decoding of JSON is given: a member as what decoding it answers, `json_body`
-- in its compacted form. The members of a stimulus that no test uses are left out.
use test_miti_check.Prelude.{
  ℕ, Bool, true, Option, none, some, List, [], ◌∷◌, ◌++◌, eqb, leb, any, if◌then◌else◌,
}
use test_miti_check.Prelude.Text.{
  Text, text, is_empty, trim_space, to_upper, equal_fold, has_prefix, drop_prefix, first_non_empty,
}
use test_miti_check.Prelude.Text.Numbers.{ℤ, pos, negsuc, max_int}
use test_miti_check.Prelude.Results.{Result, ok, err}
use test_miti_check.Request.{TestBasisSpec}

-- A JSON number as the fraction `num / den` in lowest terms.
pub record Rational : Type 0 where
  pub num : ℤ
  pub den : ℕ

-- `IntegralSeconds.UnmarshalJSON`, from what `big.Rat` reads, on a platform of 64 bits.
unfoldable pub integral_seconds : Option Rational → Result Text ℕ
unfolding text
integral_seconds none = err (text "timeout_seconds must be a number")
integral_seconds (some q) = elim q.num [
  | negsuc n ↦ err (text "timeout_seconds must be a non-negative integer")
  | pos n ↦
      if eqb q.den 1
      then (if leb n max_int
          then ok n
          else err (text "timeout_seconds is outside the supported integer range"))
      else err (text "timeout_seconds must be a non-negative integer")
]

pub data JsonBody : Type 0 where
  absent : JsonBody
  malformed compacted : Text → JsonBody

pub record Stimulus : Type 0 where
  pub artifact_type : Text
  pub method : Text
  pub path_key : Text
  pub query : List (Text × Text)
  pub headers : List (Text × Text)
  pub json_body : JsonBody
  pub body_text : Option Text
  pub content_type : Option Text

-- `stimulusBody`. `null` counts as absent.
unfoldable pub stimulus_body : Stimulus → Result Text Text
unfolding text
stimulus_body s = elim s.json_body [
  | compacted body ↦ ok body
  | malformed e ↦ err (text "json_body: " ++ e)
  | absent ↦ elim s.body_text [ some body ↦ ok body | none ↦ ok [] ]
]

unfoldable pub rooted : Text → Text
unfolding drop_prefix
rooted p = if is_empty p then b'/' ∷ [] else if has_prefix p (b'/' ∷ []) then p else b'/' ∷ p

abbrev pub with_query : (List (Text × Text) → Text) → Text → List (Text × Text) → Text
with_query encode p [] = p
with_query encode p (q ∷ query) = p ++ (b'?' ∷ encode (q ∷ query))

-- `stimulusPath`. `encode` is `url.Values.Encode`.
unfoldable pub stimulus_path : (List (Text × Text) → Text) → Text → List (Text × Text) → Text
unfolding rooted trim_space
stimulus_path encode path_key query = with_query encode (rooted (trim_space path_key)) query

abbrev pub content_name : Text
content_name = text "Content-Type"

abbrev pub has_content_type : List (Text × Text) → Bool
has_content_type headers = any (λ h. equal_fold (h.0) content_name) headers

-- `stimulusHeaders`, from the content type on.
unfoldable pub typed_headers : List (Text × Text) → Option Text → List (Text × Text)
unfolding equal_fold trim_space text
typed_headers headers none = headers
typed_headers headers (some t) =
    if is_empty (trim_space t)
    then headers
    else if has_content_type headers
    then headers
    else headers ++ ((content_name, t) ∷ [])

unfoldable pub stimulus_headers : Stimulus → List (Text × Text)
unfolding typed_headers
stimulus_headers s = typed_headers s.headers s.content_type

-- The test with a body.
unfoldable pub probe : (List (Text × Text) → Text) → Stimulus → Text → TestBasisSpec
unfolding stimulus_path stimulus_headers to_upper trim_space text
probe encode s body = record {
  kind = first_non_empty s.artifact_type (text "http-probe");
  proof_basis = text "verified-vuln-artifact";
  request = record {
    method = to_upper (trim_space (first_non_empty s.method (text "GET")));
    path = stimulus_path encode s.path_key s.query;
    headers = stimulus_headers s;
    body = body;
  };
  expected = record {
    classification = text "true-positive";
    blocked = some true;
    status_code = 403;
  };
}

abbrev pub with_body :
    (List (Text × Text) → Text) → Stimulus → Result Text Text → Result Text TestBasisSpec
with_body encode s (err e) = err e
with_body encode s (ok body) = ok (probe encode s body)

-- `TestBasisFromStimulus`.
unfoldable pub basis_from_stimulus :
    (List (Text × Text) → Text) → Stimulus → Result Text TestBasisSpec
unfolding stimulus_body probe
basis_from_stimulus encode s = with_body encode s (stimulus_body s)

-- The input of `parseStimulus`: blank or `null`, an object whose `artifacts` are present, with what
-- decoding them answers, or anything else, with the member `stimulus` and what decoding the whole as
-- a stimulus answers.
pub data Document : Type 0 where
  blank : Document
  enveloped : Result Text (List (Option Stimulus)) → Document
  plain : Option Stimulus → Result Text Stimulus → Document

-- `parseStimulus`.
unfoldable pub parse_stimulus : Document → Result Text Stimulus
unfolding text
parse_stimulus blank = err (text "empty input")
parse_stimulus (enveloped (err e)) = err (text "parse artifacts: " ++ e)
parse_stimulus (enveloped (ok [])) = err (text "artifacts array is empty")
parse_stimulus (enveloped (ok (some s ∷ artifacts))) = ok s
parse_stimulus (enveloped (ok (none ∷ artifacts))) =
    err (text "artifacts[0].mitigation_checkable_signal.stimulus is missing")
parse_stimulus (plain (some s) whole) = ok s
parse_stimulus (plain none whole) = whole
