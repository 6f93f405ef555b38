-- ===== src/Substrate.antt =====
-- What the substrates of api/executor.go, api/substrate_inmemory.go and api/substrate_aci.go have in
-- common: `substrate`, and the calls that create and release what a run uses. The lengths of
-- `truncate`, `trimErr` and `shortID` count code points, as for ASCII texts.
pub mod Local
pub mod Azure
pub mod Github
pub mod Ghcr
pub mod Conduct
pub mod Names
pub mod Remote
use test_miti_check.Prelude.{
  ℕ, suc, zero, Bool, true, false, List, [], ◌∷◌, ◌++◌, ltb, length, if◌then◌else◌,
}
use test_miti_check.Prelude.Text.{Text, is_empty}
use test_miti_check.Prelude.Results.{Result}
use test_miti_check.Outcome.{SubInfo}

-- A container of the Docker daemon, the server in the process at a port, or a group of Azure
-- Container Instances.
pub data Resource : Type 0 where
  container : Text → Resource
  server : ℕ → Resource
  group : Text → Text → Resource

-- What a run does outside of the process, in order. `forwarded` has the method, the address and the
-- body.
pub data Call : Type 0 where
  created released : Resource → Call
  forwarded : Text → Text → Text → Call

pub record Substrate : Type 0 where
  pub base : Text
  pub resource : Resource

-- What bringing a substrate up leaves in the outcome, what it did, and its substrate or its reason.
pub record Brought : Type 0 where
  pub info : SubInfo
  pub steps : List Text
  pub calls : List Call
  pub answer : Result Text Substrate

unfoldable pub take : ℕ → Text → Text
take zero s = []
take (suc n) [] = []
take (suc n) (c ∷ s) = c ∷ take n s

unfoldable pub truncate : Text → ℕ → Text
unfolding take
truncate s n = if ltb n (length s) then take n s ++ (0x2026 ∷ []) else s

unfoldable pub trim_error : Text → Text
unfolding truncate
trim_error e = truncate e 300

unfoldable pub short_id : Text → Text
unfolding take
short_id id = if ltb 12 (length id) then take 12 id else id

-- `cleanup` of a substrate. `stopContainer` does nothing for an id that is empty.
unfoldable pub release : Resource → List Call
release (container id) = if is_empty id then [] else released (container id) ∷ []
release (server port) = released (server port) ∷ []
release (group rg name) = released (group rg name) ∷ []
