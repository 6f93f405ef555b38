-- ===== src/Shared/Waf.antt =====
-- `sharedPreparedWAF.evaluate` of api/shared_contract_v2.go with the carriers and the transformations
-- of its rules. A compiled regular expression is its test.
use test_miti_check.Prelude.{Bool, true, Option, none, some, List, [], ◌∷◌, ◌++◌, if◌then◌else◌}
use test_miti_check.Prelude.Text.{Text, text, text_eq, to_lower}
use test_miti_check.Prelude.Results.{Result, ok, err, ◌>>=◌}
use test_miti_check.Reference.Json.{Json, string}
use test_miti_check.Upstream.Execute.{because}
use test_miti_check.Shared.Input.{
  HttpInput, RouteBinding, route_applies, named_values, named_values_fold,
}
use test_miti_check.Shared.Pointer.{
  PointerError, member_absent, index_invalid, broken, Codec, resolve_pointer,
}

-- `sharedPreparedRule`.
pub record PreparedRule : Type 0 where
  pub id : Text
  pub carrier : Text
  pub name : Text
  pub pattern : Text → Bool
  pub transformations : List Text

-- `sharedPreparedAlternative`.
pub record Alternative : Type 0 where
  pub component_ids : List Text
  pub route : Option RouteBinding

-- `sharedPreparedWAF`.
pub record PreparedWaf : Type 0 where
  pub rules : List (Text × PreparedRule)
  pub alternatives : List Alternative

unfoldable pub find_rule : Text → List (Text × PreparedRule) → Option PreparedRule
unfolding text_eq
find_rule id [] = none
find_rule id ((k, r) ∷ rules) =
    let rest = find_rule id rules in if text_eq k id then some r else rest

-- What a component comes to: no value of it matched, its values could not be read, a transformation
-- failed, or a rule matched.
pub data Component : Type 0 where
  missed : Component
  unreadable broke : Text → Component
  hit : Text → Component

-- What an alternative comes to; `unmatched` with the error of the values that could not be read.
pub data Judged : Type 0 where
  matched : Text → Judged
  unmatched : Option Text → Judged
  aborted : Text → Judged

abbrev pub alternative_applies : Option RouteBinding → RouteBinding → Bool
alternative_applies none route = true
alternative_applies (some bound) route = route_applies bound route

abbrev pub first_error : Option Text → Text → Option Text
first_error none e = some e
first_error (some d) e = some d

abbrev pub text_values : Json → List Text
text_values (string s) = s ∷ []
text_values _ = []

module _ (codec : Codec) where
  abbrev pub selected_values : Result PointerError Json → Result Text (List Text)
  selected_values (ok v) = ok (text_values v)
  selected_values (err member_absent) = ok []
  selected_values (err index_invalid) = ok []
  selected_values (err (broken e)) = err (text "resolve structured body selector: " ++ e)

  -- The values of a carrier `body`.
  unfoldable pub body_values : Text → Text → Result Text (List Text)
  unfolding resolve_pointer text
  body_values [] body = ok (body ∷ [])
  body_values (c ∷ name) body = do
    document ← because (text "decode structured body: ") (codec.decode_strict body)
    selected_values (resolve_pointer codec document (c ∷ name))

  -- `sharedCarrierValues`.
  unfoldable pub carrier_values : PreparedRule → HttpInput → Text → Result Text (List Text)
  unfolding named_values named_values_fold body_values text_eq text
  carrier_values rule request body =
      if text_eq rule.carrier (text "query")
      then ok (named_values request.query rule.name)
      else if text_eq rule.carrier (text "header")
      then ok (named_values_fold request.headers rule.name)
      else if text_eq rule.carrier (text "cookie")
      then ok (named_values request.cookies rule.name)
      else if text_eq rule.carrier (text "body")
      then body_values rule.name body
      else if text_eq rule.carrier (text "path")
      then ok (request.path ∷ [])
      else if text_eq rule.carrier (text "method")
      then ok (request.method ∷ [])
      else ok []

  abbrev pub transform : Text → Text → Result Text Text
  transform name value =
      if text_eq name (text "urlDecode")
      then codec.unescape value
      else if text_eq name (text "base64Decode")
      then codec.decode64 value
      else if text_eq name (text "hexDecode")
      then codec.decode_hex value
      else if text_eq name (text "lowercase")
      then ok (to_lower value)
      else err (text "unknown candidate transformation")

  -- `applySharedWAFTransforms`.
  unfoldable pub apply_transforms : Text → List Text → Result Text Text
  unfolding to_lower text_eq text
  apply_transforms value [] = ok value
  apply_transforms value (t ∷ transforms) =
      transform t value >>= (λ v. apply_transforms v transforms)

  abbrev pub tried : PreparedRule → Result Text Text → Component → Component
  tried rule (err e) rest = broke e
  tried rule (ok v) rest = if rule.pattern v then hit rule.id else rest

  unfoldable pub try_values : PreparedRule → List Text → Component
  unfolding apply_transforms
  try_values rule [] = missed
  try_values rule (v ∷ values) =
      tried rule (apply_transforms v rule.transformations) (try_values rule values)

  abbrev pub with_values : PreparedRule → Result Text (List Text) → Component
  with_values rule (err e) = unreadable e
  with_values rule (ok values) = try_values rule values

  abbrev pub with_rule : HttpInput → Text → Option PreparedRule → Component
  with_rule request body none = missed
  with_rule request body (some rule) = with_values rule (carrier_values rule request body)

  module _ (waf : PreparedWaf) (request : HttpInput) (body : Text) where
    unfoldable pub component : Text → Component
    unfolding find_rule carrier_values try_values
    component id = with_rule request body (find_rule id waf.rules)

    abbrev pub after : Component → (Text → Judged) → Judged
    after missed rest = unmatched none
    after (unreadable e) rest = unmatched (some e)
    after (broke e) rest = aborted e
    after (hit id) rest = rest id

    -- The components of an alternative in order, after one whose rule was `last`.
    unfoldable pub judge : List Text → Text → Judged
    unfolding component
    judge [] last = matched last
    judge (id ∷ ids) last = after (component id) (λ rule. judge ids rule)

    abbrev pub finish : Option Text → Result Text (Option Text)
    finish none = ok none
    finish (some e) = err e

    abbrev pub concluded :
        Judged → Option Text → (Option Text → Result Text (Option Text)) → Result Text (Option Text)
    concluded (matched id) pending rest = ok (some id)
    concluded (aborted e) pending rest = err e
    concluded (unmatched none) pending rest = rest pending
    concluded (unmatched (some e)) pending rest = rest (first_error pending e)

    unfoldable pub evaluate_from :
        RouteBinding → List Alternative → Option Text → Result Text (Option Text)
    unfolding route_applies judge
    evaluate_from route [] pending = finish pending
    evaluate_from route (a ∷ alternatives) pending =
        let skipped = evaluate_from route alternatives pending in
        let judged =
          concluded (judge a.component_ids []) pending (λ p. evaluate_from route alternatives p) in
        if alternative_applies a.route route then judged else skipped

    -- `evaluate`, with the rule that completed an alternative, or `none` where none matched.
    unfoldable pub evaluate : RouteBinding → Result Text (Option Text)
    unfolding evaluate_from
    evaluate route = evaluate_from route waf.alternatives none
