-- ===== src/Substrate/Local.antt =====
-- `bringUpLocalSubstrate`, `waitReady` and `forward` of api/executor.go, and
-- `bringUpInMemorySubstrate` of api/substrate_inmemory.go. The Docker command, the network stack and
-- the environment are parameters. A `docker run` that answers an error is taken to have created nothing,
-- although the limit of 120 seconds may end the command after the daemon has created the container.
use test_miti_check.Prelude.{ℕ, Option, none, some, List, [], ◌∷◌, ◌++◌, ltb, if◌then◌else◌}
use test_miti_check.Prelude.Text.{Text, text, is_empty, has_prefix, drop_prefix, trim_space}
use test_miti_check.Prelude.Text.Numbers.{decimal}
use test_miti_check.Prelude.Results.{Result, ok, err}
use test_miti_check.Outcome.{SubInfo}
use test_miti_check.Request.{SubstrateSpec, TestRequest}
use test_miti_check.Substrate.{
  container, server, Call, created, forwarded, Brought, trim_error, short_id,
}

-- `MC_SUBSTRATE_NETWORK`, and the answers of `docker version`, `docker run` on a network and at a
-- port, and of a listen on a free port.
pub record Docker : Type 0 where
  pub network : Text
  pub unavailable : Option Text
  pub start_container_net : Text → Text → Text → Result Text Text
  pub start_container : Text → ℕ → Result Text Text
  pub free_port : Option ℕ

abbrev pub failed : SubInfo → List Text → Text → Brought
failed info steps reason = record { info = info; steps = steps; calls = []; answer = err reason }

abbrev pub docker_step : Text
docker_step = text "docker available"

unfoldable pub started : SubInfo → Text → ℕ → Text → Text → Brought
unfolding short_id
started info id port base step = record {
  info = record info { host_port = port; container_id = short_id id };
  steps = docker_step ∷ step ∷ [];
  calls = created (container id) ∷ [];
  answer = ok (record { base = base; resource = container id });
}

unfoldable pub on_network : Docker → SubInfo → SubstrateSpec → Text → Result Text Text → Brought
unfolding started trim_error text short_id
on_network docker info sub run_id (err e) =
    failed info (docker_step ∷ []) (text "could not start substrate container: " ++ trim_error e)
on_network docker info sub run_id (ok id) =
    started info id 8080 (text "http://" ++ run_id ++ text ":8080") (
      text "started container "
      ++ short_id id
      ++ text " from "
      ++ sub.image
      ++ text " on network "
      ++ docker.network
      ++ text " as "
      ++ run_id
      ++ text ":8080")

unfoldable pub on_port : SubInfo → SubstrateSpec → ℕ → Result Text Text → Brought
unfolding started trim_error text short_id decimal
on_port info sub port (err e) =
    failed (record info { host_port = port }) (docker_step ∷ [])
      (text "could not start substrate container: " ++ trim_error e)
on_port info sub port (ok id) = started info id port (text "http://127.0.0.1:" ++ decimal port) (
    text "started container "
    ++ short_id id
    ++ text " from "
    ++ sub.image
    ++ text " on 127.0.0.1:"
    ++ decimal port)

abbrev pub at_free_port : Docker → SubInfo → SubstrateSpec → Option ℕ → Brought
at_free_port docker info sub none =
    failed info (docker_step ∷ []) (text "no free host port for substrate")
at_free_port docker info sub (some port) =
    on_port info sub port (docker.start_container sub.image port)

-- `bringUpLocalSubstrate`, from the answer of `docker version` on.
unfoldable pub with_docker : Docker → SubInfo → SubstrateSpec → Text → Option Text → Brought
unfolding on_network on_port text
with_docker docker info sub run_id (some e) = failed info [] (text "docker not available: " ++ e)
with_docker docker info sub run_id none =
    if is_empty docker.network
    then at_free_port docker info sub docker.free_port
    else on_network docker info sub run_id
        (docker.start_container_net sub.image run_id docker.network)

unfoldable pub bring_up_local : Docker → SubInfo → SubstrateSpec → Text → Brought
unfolding with_docker
bring_up_local docker info sub run_id = with_docker docker info sub run_id docker.unavailable

-- `bringUpInMemorySubstrate`, from the answer of the listen on.
unfoldable pub bring_up_in_memory : Result Text ℕ → SubInfo → SubstrateSpec → Brought
unfolding text decimal
bring_up_in_memory (err e) info sub =
    failed info [] (text "could not start in-memory substrate: " ++ e)
bring_up_in_memory (ok port) info sub =
    let base = text "http://127.0.0.1:" ++ decimal port in
    record {
      info = record info { container_id = text "in-process"; host_port = port };
      steps =
          (text "started in-memory substrate (stand-in for " ++ sub.image ++ text ") at " ++ base)
          ∷ [];
      calls = created (server port) ∷ [];
      answer = ok (record { base = base; resource = server port });
    }

-- What one round of the loop of `waitReady` meets: the end of the context, a failed request, or a
-- status.
pub data Poll : Type 0 where
  ended failing : Text → Poll
  answered : ℕ → Poll

abbrev pub or_timeout : Text → Text
or_timeout last = if is_empty last then text "timeout" else last

-- `waitReady`, on the rounds that start before its deadline: the error, if there is one.
unfoldable pub wait_from : Text → List Poll → Option Text
unfolding decimal text
wait_from last [] = some (or_timeout last)
wait_from last (ended e ∷ polls) = some e
wait_from last (failing e ∷ polls) = wait_from e polls
wait_from last (answered status ∷ polls) =
    let rest = wait_from (text "status " ++ decimal status) polls in
    if ltb status 500 then none else rest

unfoldable pub wait_ready : List Poll → Option Text
unfolding wait_from
wait_ready polls = wait_from [] polls

-- The method and the path that `forward` sends.
unfoldable pub forward_method : TestRequest → Text
unfolding text
forward_method r = if is_empty r.method then text "GET" else r.method

unfoldable pub forward_path : TestRequest → Text
unfolding drop_prefix
forward_path r =
    if is_empty r.path
    then b'/' ∷ []
    else if has_prefix r.path (b'/' ∷ [])
    then r.path
    else b'/' ∷ r.path

abbrev pub trimmed : Result Text (ℕ × Text) → Result Text (ℕ × Text)
trimmed (err e) = err e
trimmed (ok (status, body)) = ok (status, trim_space body)

-- `forward`: the calls, and the status and the start of the body, or the error. `send` is
-- `http.Client.Do`, with at most 512 bytes of the body; its request is the call.
unfoldable pub forward :
    (Text → Text → List (Text × Text) → Text → Result Text (ℕ × Text))
    → Text
    → TestRequest
    → List Call × Result Text (ℕ × Text)
unfolding forward_method forward_path trim_space
forward send base r =
    let method = forward_method r in
    let address = base ++ forward_path r in
    (forwarded method address r.body ∷ [], trimmed (send method address r.headers r.body))
