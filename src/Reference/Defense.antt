-- ===== src/Reference/Defense.antt =====
-- `verifyDefenseRow` of api/executor_locator.go. The decoding and the encoding of a producer's result,
-- SHA-256 and the reading of a time are parameters. The members of a result that no check reads are
-- one opaque text.
use test_miti_check.Prelude.{
  ℕ, Bool, false, Option, none, some, List, [], ◌∷◌, ◌++◌, ◌&&◌, ◌||◌, not, eqb, any, if◌then◌else◌,
}
use test_miti_check.Prelude.Text.{Text, text, text_eq, is_empty, trim_space}
use test_miti_check.Prelude.Text.Numbers.{ℤ, pos, eqb_int}
use test_miti_check.Prelude.Results.{Result, ok, or_error, require, ◌>>=◌, ◌>>◌}
use test_miti_check.Request.{CandidateSpec}
use test_miti_check.Api.Locator.{Locator, UpstreamRef}
use test_miti_check.Upstream.Candidate.{derive_rule_action}
use test_miti_check.Reference.Json.{byte_count}

-- `defenseRow`.
pub record DefenseRow : Type 0 where
  pub run_id : Text
  pub result_id : Text
  pub terminal_state : Text
  pub result_json : Text

-- `defenseCandidate`.
pub record DefenseCandidate : Type 0 where
  pub candidate_id : Text
  pub artifact_type : Text
  pub artifact_content : Text
  pub artifact_hash : Text
  pub evidence_refs : List Text
  pub others : Text

-- `defenseCanonicalResult`. `upstream_evidence` has the evidence of each upstream reference.
pub record DefenseResult : Type 0 where
  pub capability : Text
  pub contract_id : Text
  pub request_id : Text
  pub correlation_id : Text
  pub run_id : Text
  pub result_id : Text
  pub status : Text
  pub terminal_state : Text
  pub result_ref : Option UpstreamRef
  pub evidence_refs : List Text
  pub primary_candidate : Option DefenseCandidate
  pub upstream_evidence : List (List Text)
  pub others : Text
  pub content_sha256 : Text
  pub size_bytes : ℤ
  pub created_at : Text

-- `digest` is the hexadecimal SHA-256; `instant` reads a time by one of the two layouts of
-- `sameTimestamp`.
pub record DefenseCodec : Type 0 where
  pub decode : Text → Option DefenseResult
  pub encode : DefenseResult → Text
  pub digest : Text → Text
  pub instant : Text → Option ℕ

-- `stableStringUnion`, after the values that were seen.
unfoldable pub union_from : List Text → List Text → List Text
unfolding trim_space text_eq
union_from seen [] = []
union_from seen (v ∷ values) =
    let fresh = union_from (v ∷ seen) values in
    let rest = union_from seen values in
    if is_empty (trim_space v) || any (λ s. text_eq s v) seen then rest else v ∷ fresh

-- `stableStringUnion(evidence, group)` for each of the groups.
unfoldable pub absorb : List Text → List (List Text) → List Text
unfolding union_from
absorb evidence [] = evidence
absorb evidence (group ∷ groups) = absorb (union_from [] (evidence ++ group)) groups

unfoldable pub same_ref : UpstreamRef → UpstreamRef → Bool
unfolding text_eq
same_ref r l =
    text_eq r.system l.system
    && text_eq r.catalog l.catalog
    && text_eq r.schema l.schema
    && text_eq r.table l.table
    && text_eq r.key l.key

-- `result.ContentSHA256, result.SizeBytes = "", 0`.
abbrev pub unsigned : DefenseResult → DefenseResult
unsigned r = record r { content_sha256 = []; size_bytes = pos 0 }

unfoldable pub row_identifies : DefenseRow → Locator → Bool
unfolding text_eq
row_identifies row l =
    text_eq row.run_id l.run_id
    && text_eq row.result_id l.result_id
    && text_eq row.terminal_state l.terminal_state

abbrev pub refers_to : Option UpstreamRef → UpstreamRef → Bool
refers_to none l = false
refers_to (some r) l = same_ref r l

unfoldable pub is_modsecurity : DefenseCandidate → Bool
unfolding text_eq trim_space text
is_modsecurity c =
    text_eq c.artifact_type (text "modsecurity-rule")
    && not (is_empty (trim_space c.candidate_id))
    && not (is_empty (trim_space c.artifact_content))

abbrev pub supported : Option DefenseCandidate → Option DefenseCandidate
supported none = none
supported (some c) = if is_modsecurity c then some c else none

unfoldable pub evidence_of : DefenseResult → DefenseCandidate → List Text
unfolding union_from absorb
evidence_of r c = absorb (union_from [] (r.evidence_refs ++ c.evidence_refs)) r.upstream_evidence

unfoldable pub waf_candidate : DefenseCandidate → CandidateSpec
unfolding derive_rule_action text
waf_candidate c = record {
  kind = text "waf-rule";
  engine = text "modsecurity";
  rule_id = c.candidate_id;
  rule = c.artifact_content;
  action = derive_rule_action c.artifact_content;
}

module _ (codec : DefenseCodec) where
  -- `sha256Value`.
  unfoldable pub sha256_value : Text → Text
  unfolding text
  sha256_value content = text "sha256:" ++ codec.digest content

  -- `sameTimestamp`.
  unfoldable pub same_timestamp : Text → Text → Bool
  same_timestamp first second = elim (codec.instant first) [
    | none ↦ false
    | some a ↦ elim (codec.instant second) [ none ↦ false | some b ↦ eqb a b ]
  ]

  unfoldable pub result_identifies : DefenseResult → Locator → Bool
  unfolding text_eq same_timestamp same_ref
  result_identifies r l =
      text_eq r.capability l.capability
      && text_eq r.contract_id l.contract_id
      && text_eq r.request_id l.request_id
      && text_eq r.correlation_id l.correlation_id
      && text_eq r.run_id l.run_id
      && text_eq r.result_id l.result_id
      && text_eq r.status l.status
      && text_eq r.terminal_state l.terminal_state
      && same_timestamp r.created_at l.created_at
      && refers_to r.result_ref l.result_ref

  unfoldable pub is_intact : DefenseResult → Locator → Bool
  unfolding text_eq sha256_value byte_count
  is_intact r l =
      text_eq r.content_sha256 (sha256_value (codec.encode (unsigned r)))
      && eqb_int r.size_bytes (pos (byte_count (codec.encode (unsigned r))))
      && text_eq r.content_sha256 l.content_sha256
      && eqb_int r.size_bytes (pos l.size_bytes)

  -- The last checks of `verifyDefenseRow`, on the candidate.
  unfoldable pub verify_candidate :
      DefenseResult → DefenseCandidate → Result Text (CandidateSpec × List Text)
  unfolding sha256_value evidence_of waf_candidate text_eq text
  verify_candidate r c = do
    require (text_eq c.artifact_hash (sha256_value c.artifact_content))
        (text "Defense Generation candidate artifact_hash differs from artifact_content")
    ok (waf_candidate c, evidence_of r c)

  -- The checks on the decoded result.
  unfoldable pub verify_result : Locator → DefenseResult → Result Text (CandidateSpec × List Text)
  unfolding result_identifies is_intact is_modsecurity verify_candidate text
  verify_result l r = do
    require (result_identifies r l)
        (text "Defense Generation logical result identity differs from locator")
    require (is_intact r l)
        (text "Defense Generation physical/logical integrity verification failed")
    c ←
        or_error (supported r.primary_candidate)
          (text "Defense Generation result has no supported ModSecurity candidate")
    verify_candidate r c

  -- `verifyDefenseRow`.
  unfoldable pub verify_defense_row : DefenseRow → Locator → Result Text (CandidateSpec × List Text)
  unfolding row_identifies verify_result text
  verify_defense_row row l = do
    require (row_identifies row l)
        (text "Defense Generation physical row identity differs from locator")
    r ← or_error (codec.decode row.result_json) (text "decode Defense Generation result_json")
    verify_result l r
