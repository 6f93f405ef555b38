-- ===== src/Callback/Deliver.antt =====
-- `CallbackDispatcher.deliver`, `retry` and `configurationFailed` of api/callback.go, as the ledger
-- operation that ends the delivery. The HTTP client and the wording of a status are parameters.
use Prim.Native.String.{◌++◌}
use test_miti_check.Prelude.{ℕ, String, Bool, Option, ltb, eqb, not, if◌then◌else◌}
use test_miti_check.Prelude.Text.{Text, is_empty, trim_space}
use test_miti_check.Ledger.Durable.{DurableRun}
use test_miti_check.Ledger.Operation.{
  Operation, callback_succeeded, callback_failed, callback_unconfigured,
}
use test_miti_check.Callback.Retry.{retryable_status, retry_delay, retry_after}

pub record CallbackWakeup : Type 0 where
  pub event_id : String
  pub capability : String
  pub request_id : String
  pub correlation_id : String
  pub run_id : String

pub record CallbackPayload : Type 0 where
  pub workflow_id : String
  pub wakeup : CallbackWakeup

pub record CallbackDelivery : Type 0 where
  pub run : DurableRun
  pub attempt : ℕ
  pub lease_token : String

-- What comes back of a request: an error of the client, or a status and the header Retry-After.
pub data Reply : Type 0 where
  unreachable : String → Reply
  answered : ℕ → Text → Reply

-- `encodes` is whether `json.Marshal` takes the payload, `requests` whether `http.NewRequest`
-- takes the URL; `send` is the client, under the bearer token.
pub record Client : Type 0 where
  pub encodes : CallbackPayload → Bool
  pub requests : String → Bool
  pub send : Text → String → CallbackPayload → Reply
  pub parse_time : Text → Option ℕ
  pub clock : ℕ
  pub random : ℕ
  pub print : ℕ → String

unfoldable pub payload_of : DurableRun → CallbackPayload
payload_of run = record {
  workflow_id = run.callback_workflow_id;
  wakeup = record {
    event_id = run.callback_event_id;
    capability = "mitigation-check";
    request_id = run.run_status.request_id;
    correlation_id = run.run_status.correlation_id;
    run_id = run.run_status.run_id;
  };
}

abbrev pub configuration_failed : CallbackDelivery → String → Operation
configuration_failed d reason = callback_unconfigured d.run.run_status.run_id d.lease_token reason

abbrev pub later : ℕ → ℕ → ℕ
later after delay = if ltb delay after then after else delay

-- The method `retry`, at the delay that the reply asks for.
unfoldable pub retry : Client → CallbackDelivery → ℕ → String → Operation
unfolding retry_delay
retry client d after cause =
    callback_failed d.run.run_status.run_id d.lease_token
      (later after (retry_delay d.attempt client.random)) cause

unfoldable pub conclude : Client → CallbackDelivery → Reply → Operation
unfolding retry retryable_status retry_after
conclude client d (unreachable cause) = retry client d 0 cause
conclude client d (answered status header) =
    if eqb status 202
    then callback_succeeded d.run.run_status.run_id d.lease_token
    else if retryable_status status
    then retry client d (retry_after client.parse_time header client.clock)
        ("callback returned HTTP " ++ client.print status)
    else configuration_failed d ("callback returned non-retryable HTTP " ++ client.print status)

-- `token` is `CAPABILITY_CALLBACK_TOKEN`, which `NewCallbackDispatcher` trims.
unfoldable pub deliver : Client → Text → CallbackDelivery → Operation
unfolding conclude trim_space payload_of
deliver client token d =
    if is_empty (trim_space token)
    then configuration_failed d "callback token is not configured"
    else if not (client.encodes (payload_of d.run))
    then configuration_failed d "callback payload could not be encoded"
    else if not (client.requests d.run.callback_url)
    then configuration_failed d "callback URL could not create a request"
    else conclude client d (client.send (trim_space token) d.run.callback_url (payload_of d.run))
