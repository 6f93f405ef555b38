-- ===== src/Waf/Rule.antt =====
-- `compileRule` and `evaluate` of api/executor.go. Go's package regexp is a parameter:
-- `regexp.Compile`, with the text of its error, and `MatchString` of what it answers.
use test_miti_check.Prelude.{ℕ, Bool, Option, none, some, List, [], ◌∷◌, if◌then◌else◌, ◌&&◌, not}
use test_miti_check.Prelude.Text.{Text, is_empty}
use test_miti_check.Prelude.Text.Numbers.{pos, negsuc, atoi}
use test_miti_check.Prelude.Results.{Result, ok, err, or_error, ◌>>=◌}
use test_miti_check.Request.{CandidateSpec, TestRequest}
use test_miti_check.Waf.Pattern.{find_target, find_id, find_status, extract_rx, clamp_repeats}
use test_miti_check.Waf.Target.{Url, TargetError, parse_targets, target_values, url_decode}

abbrev pub Engine : Type 0
Engine = Text → Result Text (Text → Bool)

pub record WafRule : Type 0 where
  pub rule_id : Text
  pub status : ℕ
  pub matches_string : Text → Bool
  pub targets : List Text
  pub clamped : Bool

pub data CompileError : Type 0 where
  no_target no_operator : CompileError
  bad_target : TargetError → CompileError
  bad_pattern : Text → CompileError

abbrev as_compile {ℓ} : {A : Type ℓ} → Result TargetError A → Result CompileError A
as_compile (ok a) = ok a
as_compile (err e) = err (bad_target e)

abbrev as_pattern {ℓ} : {A : Type ℓ} → Result Text A → Result CompileError A
as_pattern (ok a) = ok a
as_pattern (err e) = err (bad_pattern e)

-- The candidate's own id, or the one that the rule names.
abbrev pub chosen_id : Text → Option Text → Text
chosen_id [] none = []
chosen_id [] (some digits) = digits
chosen_id (c ∷ s) found = c ∷ s

abbrev pub chosen_status : Option Text → ℕ
chosen_status none = 403
chosen_status (some digits) = elim (atoi digits) [
  | some (pos n) ↦ n
  | some (negsuc n) ↦ 403
  | none ↦ 403
]

-- `compileRule`.
unfoldable pub compile_rule : Engine → CandidateSpec → Result CompileError WafRule
unfolding find_target parse_targets extract_rx clamp_repeats find_id find_status atoi
compile_rule engine c = do
  expression ← or_error (find_target c.rule) no_target
  targets ← as_compile (parse_targets expression)
  pattern ← or_error (extract_rx c.rule) no_operator
  matcher ← as_pattern (engine ((clamp_repeats pattern).0))
  ok (record {
    rule_id = chosen_id c.rule_id (find_id c.rule);
    status = chosen_status (find_status c.rule);
    matches_string = matcher;
    targets = targets;
    clamped = (clamp_repeats pattern).1;
  })

-- Whether a value is one that the rule stops.
abbrev pub stops : WafRule → Text → Bool
stops w s = not (is_empty s) && w.matches_string s

-- The first of the selected values, raw or decoded, that the rule stops.
unfoldable pub first_stopped : Url → WafRule → List Text → Option Text
unfolding url_decode
first_stopped url w [] = none
first_stopped url w (raw ∷ values) =
    let later = first_stopped url w values in
    let decoded = url_decode url raw in
    if stops w raw then some raw else if stops w decoded then some decoded else later

-- `evaluate`: the value that the rule matched on, if there is one.
unfoldable pub evaluate_rule : Url → WafRule → TestRequest → Option Text
unfolding target_values first_stopped
evaluate_rule url w r = first_stopped url w (target_values url w.targets r)
