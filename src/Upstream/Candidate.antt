-- ===== src/Upstream/Candidate.antt =====
-- What api/executor_upstream.go makes of the rule that it reads: `candidateKind`, `candidateEngine`
-- and `deriveRuleAction`.
use mathlib.Core.List.{reverse}
use test_miti_check.Prelude.{
  Bool, true, false, Option, none, some, List, [], ◌∷◌, ◌||◌, not, if◌then◌else◌,
}
use test_miti_check.Prelude.Options.{◌>>=◌}
use test_miti_check.Prelude.Text.{
  Text, text, text_eq, is_empty, trim_space, to_lower, has_prefix, drop_prefix, contains, cut_text,
  cut_last, fields,
}
use test_miti_check.Request.{CandidateSpec}
use test_miti_check.Waf.Pattern.{is_word}

-- `PrimaryCandidate`, less the members that no run reads.
pub record PrimaryCandidate : Type 0 where
  pub artifact_content : Text
  pub artifact_type : Text
  pub candidate_id : Text
  pub selected_control_class : Text

unfoldable pub is_waf_shaped : Text → Bool
unfolding trim_space drop_prefix cut_text text
is_waf_shaped rule = has_prefix (trim_space rule) (text "SecRule") || contains rule (text "@rx")

unfoldable pub candidate_kind : PrimaryCandidate → Text → Text
unfolding is_waf_shaped to_lower trim_space text_eq text
candidate_kind pc rule =
    let class = to_lower (trim_space pc.selected_control_class) in
    if text_eq class (text "firewall")
    then text "firewall-rule"
    else if text_eq class (text "waf")
    then text "waf-rule"
    else if is_waf_shaped rule
    then text "waf-rule"
    else text "firewall-rule"

-- `strings.TrimSuffix`.
unfoldable pub drop_suffix : Text → Text → Text
unfolding drop_prefix
drop_suffix suffix s = elim (drop_prefix (reverse suffix) (reverse s)) [
  | some rest ↦ reverse rest
  | none ↦ s
]

unfoldable pub candidate_engine : PrimaryCandidate → Text → Text
unfolding is_waf_shaped drop_suffix cut_text to_lower trim_space text
candidate_engine pc rule =
    let type = to_lower (trim_space pc.artifact_type) in
    if not (is_empty type)
    then drop_suffix (text "-rule") type
    else if is_waf_shaped rule
    then text "modsecurity"
    else if contains rule (text "-j ") || contains rule (text "iptables")
    then text "iptables"
    else []

-- The words of `reRuleAction`.
abbrev pub actions : List Text
actions =
    text "deny"
    ∷ text "drop"
    ∷ text "block"
    ∷ text "pass"
    ∷ text "allow"
    ∷ text "reject"
    ∷ text "accept"
    ∷ []

abbrev ends_word : Text → Bool
ends_word [] = true
ends_word (c ∷ s) = not (is_word c)

-- The first of the words that stands at the start of a text and ends there.
unfoldable pub word_here : List Text → Text → Option Text
unfolding drop_prefix
word_here [] s = none
word_here (w ∷ words) s =
    let other = word_here words s in
    elim (drop_prefix w s) [ none ↦ other | some rest ↦ if ends_word rest then some w else other ]

-- `reRuleAction.FindString`. The flag tells that a word character stands before.
unfoldable pub action_from : Bool → Text → Option Text
unfolding word_here text
action_from inside [] = none
action_from inside (c ∷ s) =
    let later = action_from (is_word c) s in
    elim (if inside then none else word_here actions (c ∷ s)) [ some w ↦ some w | none ↦ later ]

-- `lastQuoted`.
unfoldable pub last_quoted : Text → Option Text
unfolding cut_last
last_quoted s = do parts ← cut_last 34 s; inner ← cut_last 34 (parts.0); some (inner.1)

-- The target after `-j `, if it is one of three.
abbrev target_word : List Text → Option Text
target_word [] = none
target_word (w ∷ words) =
    if text_eq w (text "drop") || text_eq w (text "reject") || text_eq w (text "accept")
    then some w
    else none

unfoldable pub jump_target : Text → Option Text
unfolding cut_text fields text_eq text
jump_target low = do parts ← cut_text (text "-j ") low; target_word (fields (parts.1))

unfoldable pub quoted_action : Text → Option Text
unfolding last_quoted action_from to_lower
quoted_action rule = do segment ← last_quoted rule; action_from false (to_lower segment)

abbrev pub first_some : Option Text → Option Text → Option Text
first_some (some w) o = some w
first_some none o = o

abbrev pub or_nothing : Option Text → Text
or_nothing none = []
or_nothing (some w) = w

unfoldable pub derive_rule_action : Text → Text
unfolding jump_target quoted_action action_from to_lower
derive_rule_action rule =
    let low = to_lower rule in
    or_nothing
      (first_some (jump_target low) (first_some (quoted_action rule) (action_from false low)))

-- The candidate of a rule.
unfoldable pub candidate_spec : PrimaryCandidate → CandidateSpec
unfolding candidate_kind candidate_engine derive_rule_action trim_space
candidate_spec pc =
    let rule = trim_space pc.artifact_content in
    record {
      kind = candidate_kind pc rule;
      engine = candidate_engine pc rule;
      rule_id = [];
      rule = rule;
      action = derive_rule_action rule;
    }
