-- ===== src/Api/Read.antt =====
-- The other handlers of api/lifecycle.go: the routes, `handleRunStatus`, `handleRunResult`,
-- `handleRunCancel` and `publicStatus`.
use Prim.Native.String.{len}
use test_miti_check.Prelude.{
  ℕ, String, Bool, true, false, Option, none, some, List, [], ◌∷◌, ◌&&◌, not, eqb, is_some,
  if◌then◌else◌,
}
use mathlib.Core.List.{reverse}
use test_miti_check.Prelude.Text.{Text, text, text_eq, is_empty, split, drop_prefix}
use test_miti_check.Canonical.{Codec}
use test_miti_check.Ledger.Row.{Row, Status, completed, is_terminal}
use test_miti_check.Ledger.Durable.{DurableRun, RunStatus, get_durable, get_status}
use test_miti_check.Ledger.Store

pub data Method : Type 0 where
  get post other : Method

-- The routes of `handleRunItem`; an id is the text of the path.
pub data Route : Type 0 where
  to_status to_result to_cancel : Text → Route
  not_found not_allowed : Route

abbrev pub is_get : Method → Bool
is_get get = true
is_get _ = false

abbrev pub is_post : Method → Bool
is_post post = true
is_post _ = false

-- `strings.Trim(s, "/")`.
unfoldable pub drop_slashes : Text → Text
drop_slashes [] = []
drop_slashes (c ∷ s) = let rest = drop_slashes s in if eqb c b'/' then rest else c ∷ s

unfoldable pub trim_slashes : Text → Text
unfolding drop_slashes
trim_slashes s = reverse (drop_slashes (reverse (drop_slashes s)))

abbrev pub drop_base : Text → Text
drop_base path = elim (drop_prefix (text "/v1/mitigation-check-runs/") path) [
  | none ↦ path
  | some rest ↦ rest
]

unfoldable pub route_parts : Method → List Text → Route
unfolding text_eq text
route_parts m (id ∷ []) =
    if is_empty id then not_found else if is_get m then to_status id else not_allowed
route_parts m (id ∷ action ∷ []) =
    if text_eq action (text "result") && is_get m
    then to_result id
    else if text_eq action (text "cancel") && is_post m
    then to_cancel id
    else not_allowed
route_parts m _ = not_found

-- `handleRunItem`, up to the handler that it calls.
unfoldable pub route : Method → Text → Route
unfolding route_parts trim_slashes split drop_prefix text
route m path = route_parts m (split b'/' (trim_slashes (drop_base path)))

-- What the handlers write: the errors by their codes, a status, or the stored payload without the
-- hidden members.
pub data View : Type 0 where
  run_not_found ledger_unavailable run_not_terminal result_payload_unavailable : View
  status_view : RunStatus → View
  result_view : String → View

abbrev pub is_completed : Status → Bool
is_completed completed = true
is_completed _ = false

unfoldable pub public_status : RunStatus → RunStatus
public_status s =
    if is_completed s.status then s else record s { result_id = none; completion = none }

-- What a handler reads: the database fails, there is no such run, or it is found.
unfoldable pub view_status : Bool → Option RunStatus → View
unfolding public_status
view_status true o = ledger_unavailable
view_status false none = run_not_found
view_status false (some s) = status_view (public_status s)

-- `strip` is `apiResultView`: the JSON object without the members that are hidden.
unfoldable pub view_run : (String → String) → DurableRun → View
unfolding public_status
view_run strip d =
    if not (is_terminal d.run_status.status)
    then run_not_terminal
    else if is_completed d.run_status.status && is_some d.result
    then (if eqb (len d.result_payload) 0
        then result_payload_unavailable
        else result_view (strip d.result_payload))
    else status_view (public_status d.run_status)

unfoldable pub view_result : (String → String) → Bool → Option DurableRun → View
unfolding view_run
view_result strip true o = ledger_unavailable
view_result strip false none = run_not_found
view_result strip false (some d) = view_run strip d

abbrev pub status_of : Option DurableRun → Option RunStatus
status_of none = none
status_of (some d) = some d.run_status

module _ (codec : Codec) (down : Bool) where
  unfoldable pub handle_run_status : String → List Row → View
  unfolding view_status get_status
  handle_run_status id rows = view_status down (get_status codec id rows)

  unfoldable pub handle_run_result : (String → String) → String → List Row → View
  unfolding view_result get_durable
  handle_run_result strip id rows = view_result strip down (get_durable codec id rows)

  unfoldable pub handle_run_cancel : ℕ → String → List Row → List Row × View
  unfolding view_status Store.cancel
  handle_run_cancel now id rows =
      let (rows', run) = Store.cancel codec now id rows in
      if down then (rows, ledger_unavailable) else (rows', view_status false (status_of run))
