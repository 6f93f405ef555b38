-- ===== src/Substrate/Conduct.antt =====
-- What bringing a substrate up in api/executor.go, api/substrate_inmemory.go and
-- api/substrate_aci.go leaves behind.
use test_miti_check.Prelude.{
  ◌≡◌, refl, ap, ℕ, false, Option, none, some, List, [], ◌∷◌, ◌++◌, ◌||◌, All, if-both,
  if◌then◌else◌,
}
use test_miti_check.Prelude.Text.{Text, text, is_empty}
use test_miti_check.Prelude.Results.{Result, ok, err}
use test_miti_check.Outcome.{SubInfo}
use test_miti_check.Request.{SubstrateSpec}
use test_miti_check.Substrate.{
  Resource, group, Call, created, released, forwarded, Substrate, Brought, release,
}
use test_miti_check.Substrate.Local.{
  Docker, failed, started, on_network, on_port, at_free_port, with_docker, bring_up_local,
  bring_up_in_memory,
}
use test_miti_check.Substrate.Azure.{
  Azure, Address, aci_host, with_group, requested, with_client, with_credential, is_configured,
  unconfigured, no_principal, secret_brought, bring_up_aci, bring_up_aci_sp,
}

abbrev pub IsForward : Call → Type 0
IsForward (created r) = ⊥
IsForward (released r) = ⊥
IsForward (forwarded method address body) = Unit

-- Nothing was created, or one resource was, and its release is the last call.
pub data IsClean (calls : List Call) : Type 0 where
  unused : calls ≡ [] → IsClean calls
  used :
      (r : Resource) (between : List Call)
      → All IsForward between
      → calls ≡ created r ∷ (between ++ (released r ∷ []))
      → IsClean calls

-- The requests that reached the application.
unfoldable pub forwards : List Call → List Call
forwards [] = []
forwards (created r ∷ calls) = forwards calls
forwards (released r ∷ calls) = forwards calls
forwards (forwarded method address body ∷ calls) = forwarded method address body ∷ forwards calls

pub forwards-released :
    (r : Resource) (calls : List Call) → forwards (calls ++ (released r ∷ [])) ≡ forwards calls
unfolding forwards
forwards-released r [] = refl
forwards-released r (created x ∷ calls) = forwards-released r calls
forwards-released r (released x ∷ calls) = forwards-released r calls
forwards-released r (forwarded m a b ∷ calls) =
    ap (λ cs. forwarded m a b ∷ cs) (forwards-released r calls)

-- A substrate that did not come up left nothing behind, and one that did is the one resource that was
-- created, which its cleanup releases.
pub data IsAccounted (b : Brought) : Type 0 where
  gone :
      (reason : Text)
      → b.answer ≡ err reason
      → IsClean b.calls
      → forwards b.calls ≡ []
      → IsAccounted b
  held :
      (s : Substrate)
      → b.answer ≡ ok s
      → b.calls ≡ created s.resource ∷ []
      → release s.resource ≡ released s.resource ∷ []
      → IsAccounted b

-- The documented behaviour of `docker run -d`: it prints an id.
pub record Prints (docker : Docker) : Type 0 where
  pub on_net :
      (image name network id : Text)
      → docker.start_container_net image name network ≡ ok id
      → is_empty id ≡ false
  pub at_port :
      (image : Text) (port : ℕ) (id : Text)
      → docker.start_container image port ≡ ok id
      → is_empty id ≡ false

gone_by : {b : Brought} {reason : Text} → b.answer ≡ err reason → b.calls ≡ [] → IsAccounted b
unfolding forwards
gone_by {b} {reason} a c = gone reason a (unused c) (rw c refl)

module _ (docker : Docker) (prints : Prints docker) (info : SubInfo) (sub : SubstrateSpec) where
  on_network-IsAccounted :
      (run_id : Text) (answer : Result Text Text)
      → docker.start_container_net sub.image run_id docker.network ≡ answer
      → IsAccounted (on_network docker info sub run_id answer)
  unfolding on_network started release
  on_network-IsAccounted run_id (err e) h = gone_by refl refl
  on_network-IsAccounted run_id (ok id) h =
      let n = prints.on_net sub.image run_id docker.network id h in held _ refl refl (rw n refl)

  on_port-IsAccounted :
      (port : ℕ) (answer : Result Text Text)
      → docker.start_container sub.image port ≡ answer
      → IsAccounted (on_port info sub port answer)
  unfolding on_port started release
  on_port-IsAccounted port (err e) h = gone_by refl refl
  on_port-IsAccounted port (ok id) h =
      let n = prints.at_port sub.image port id h in held _ refl refl (rw n refl)

  at_free_port-IsAccounted : (port : Option ℕ) → IsAccounted (at_free_port docker info sub port)
  at_free_port-IsAccounted none = gone_by refl refl
  at_free_port-IsAccounted (some port) = on_port-IsAccounted port _ refl

  with_docker-IsAccounted :
      (run_id : Text) (e : Option Text) → IsAccounted (with_docker docker info sub run_id e)
  unfolding with_docker
  with_docker-IsAccounted run_id (some e) = gone_by refl refl
  with_docker-IsAccounted run_id none =
      if-both IsAccounted (is_empty docker.network) _ _ (at_free_port-IsAccounted docker.free_port)
        (on_network-IsAccounted run_id _ refl)

  pub bring_up_local-IsAccounted :
      (run_id : Text) → IsAccounted (bring_up_local docker info sub run_id)
  unfolding bring_up_local
  bring_up_local-IsAccounted run_id = with_docker-IsAccounted run_id docker.unavailable

pub bring_up_in_memory-IsAccounted :
    (port : Result Text ℕ) (info : SubInfo) (sub : SubstrateSpec)
    → IsAccounted (bring_up_in_memory port info sub)
unfolding bring_up_in_memory release
bring_up_in_memory-IsAccounted (err e) info sub = gone_by refl refl
bring_up_in_memory-IsAccounted (ok port) info sub = held _ refl refl refl

with_group-IsAccounted :
    (info : SubInfo) (name step rg : Text) (answer : Result Text (Option Address))
    → IsAccounted (with_group info name step (group rg name) answer)
unfolding with_group release forwards
with_group-IsAccounted info name step rg (err e) =
    gone _ refl (used (group rg name) [] tt refl) refl
with_group-IsAccounted info name step rg (ok address) =
    if-both IsAccounted (is_empty (aci_host address)) _ _
      (gone _ refl (used (group rg name) [] tt refl) refl) (held _ refl refl refl)

module _ (azure : Azure) (info : SubInfo) (sub : SubstrateSpec) (run_id : Text) where
  requested-IsAccounted :
      (name step : Text) (e : Option Text) → IsAccounted (requested azure info name step e)
  unfolding requested
  requested-IsAccounted name step (some e) = gone_by refl refl
  requested-IsAccounted name step none =
      with_group-IsAccounted info name step azure.resource_group (azure.poll_until_done name)

  with_client-IsAccounted : (e : Option Text) → IsAccounted (with_client azure info sub run_id e)
  unfolding with_client
  with_client-IsAccounted (some e) = gone_by refl refl
  with_client-IsAccounted none = requested-IsAccounted _ _ _

  with_credential-IsAccounted :
      (what : Text) (e : Option Text) → IsAccounted (with_credential azure info sub run_id what e)
  unfolding with_credential
  with_credential-IsAccounted what (some e) = gone_by refl refl
  with_credential-IsAccounted what none = with_client-IsAccounted azure.client

  failed-IsAccounted : (reason : Text) → IsAccounted (failed info [] reason)
  failed-IsAccounted reason = gone_by refl refl

  configured-IsAccounted :
      (b : Brought)
      → IsAccounted b
      → IsAccounted (if is_configured azure then b else failed info [] unconfigured)
  configured-IsAccounted b h =
      if-both IsAccounted (is_configured azure) b (failed info [] unconfigured) h
        (failed-IsAccounted unconfigured)

  pub bring_up_aci-IsAccounted : IsAccounted (bring_up_aci azure info sub run_id)
  unfolding bring_up_aci
  bring_up_aci-IsAccounted =
      configured-IsAccounted
        (with_credential azure info sub run_id (text "azure credential unavailable: ")
          azure.default_credential)
        (with_credential-IsAccounted (text "azure credential unavailable: ")
          azure.default_credential)

  pub bring_up_aci_sp-IsAccounted : IsAccounted (bring_up_aci_sp azure info sub run_id)
  unfolding bring_up_aci_sp
  bring_up_aci_sp-IsAccounted = configured-IsAccounted (secret_brought azure info sub run_id) (
      if-both IsAccounted
        (is_empty azure.tenant || is_empty azure.client_id || is_empty azure.secret)
        (failed info [] no_principal)
        (with_credential azure info sub run_id (text "azure service principal credential error: ")
          azure.secret_credential)
        (failed-IsAccounted no_principal)
        (with_credential-IsAccounted (text "azure service principal credential error: ")
          azure.secret_credential))
