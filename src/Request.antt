-- ===== src/Request.antt =====
-- The parts of a submitted request that the executors read, api/main.go: `CandidateSpec`,
-- `TestBasisSpec` and their parts. A raw JSON field is given by what decoding it answers.
use test_miti_check.Prelude.{ℕ, Bool, Option, List}
use test_miti_check.Prelude.Text.{Text}

-- A `json.RawMessage`: of length 0, refused by `json.Unmarshal`, or decoded.
pub data Raw {ℓ} (A : Type ℓ) : Type ℓ where
  missing garbled : Raw A
  value : A → Raw A

pub record CandidateSpec : Type 0 where
  pub kind : Text
  pub engine : Text
  pub rule_id : Text
  pub rule : Text
  pub action : Text

pub record TestRequest : Type 0 where
  pub method : Text
  pub path : Text
  pub headers : List (Text × Text)
  pub body : Text

pub record TestExpected : Type 0 where
  pub classification : Text
  pub blocked : Option Bool
  pub status_code : ℕ

pub record TestBasisSpec : Type 0 where
  pub kind : Text
  pub proof_basis : Text
  pub request : TestRequest
  pub expected : TestExpected

pub record SubstrateSpec : Type 0 where
  pub kind : Text
  pub image : Text
