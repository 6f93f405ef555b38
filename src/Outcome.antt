-- ===== src/Outcome.antt =====
-- The executed result, api/executor.go: `RunOutcome` and its parts, and the JSON and SHA-256
-- operations that the code calls on it. The texts that the executor reads and writes are lists of
-- code points.
use test_miti_check.Prelude.Text.{Text}
use test_miti_check.Request.{CandidateSpec, TestBasisSpec}
use test_miti_check.Prelude.{ℕ, String, Bool, true, false, Option, List}

-- The strings of `stateBlocked` … `stateMalfunction`, of a canceled run, and the empty string.
pub data TerminalState : Type 0 where
  unset blocked not_blocked could_not_test malfunction canceled_run : TerminalState

pub record ResultRef : Type 0 where
  pub system : String
  pub catalog : String
  pub schema : String
  pub table : String
  pub key : String

pub record Expected : Type 0 where
  pub classification : Text
  pub blocked : Bool
  pub status_code : ℕ

pub record Actual : Type 0 where
  pub blocked : Bool
  pub status_code : ℕ
  pub reached_app : Bool
  pub matched_rule_id : Text
  pub detail : Text

pub record SubInfo : Type 0 where
  pub image : Text
  pub runner : Text
  pub container_id : Text
  pub host_port : ℕ
  pub fqdn : Text
  pub ready : Bool

-- The fields of the shared-contract path are left out.
pub record RunOutcome : Type 0 where
  pub capability : String
  pub contract_id : String
  pub request_id : String
  pub run_id : String
  pub result_id : String
  pub terminal_state : TerminalState
  pub status : String
  pub correlation_id : String
  pub result_ref : Option ResultRef
  pub evidence_refs : List String
  pub request_sha256 : String
  pub profile_id : String
  pub is_match : Bool
  pub expected : Expected
  pub actual : Actual
  pub substrate : SubInfo
  pub candidate : Option CandidateSpec
  pub test_basis : Option TestBasisSpec
  pub steps : List Text
  pub prose_summary : Text
  pub limitations : List Text
  pub content_sha256 : String
  pub size_bytes : ℕ
  pub created_at : ℕ

abbrev pub is_malfunction : TerminalState → Bool
is_malfunction malfunction = true
is_malfunction _ = false
