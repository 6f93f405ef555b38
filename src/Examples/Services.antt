-- ===== src/Examples/Services.antt =====
-- Concrete firewall tests and callbacks.
use test_miti_check.Prelude.{arith, true, false, Option, none, some, [], ◌≡◌, refl}
use test_miti_check.Prelude.Text.{Text, text, is_empty, trim_space}
use test_miti_check.Prelude.Text.Numbers.{pos}
use test_miti_check.Outcome.{RunOutcome, blocked}
use test_miti_check.Request.{value, CandidateSpec}
use test_miti_check.Firewall.Address.{Ipv6}
use test_miti_check.Firewall.Rule.{Connection}
use test_miti_check.Firewall.Compact.{RuleError}
use test_miti_check.Firewall.Verdict.{FirewallTestBasis, run_firewall}
use test_miti_check.Firewall.Judgement.{Mitigates, run_firewall-Mitigates}
use test_miti_check.Ledger.Row.{Row, completed, delivering, delivered}
use test_miti_check.Ledger.Statement.{apply}
use test_miti_check.Ledger.Outbox.{delivers}
use test_miti_check.Ledger.Operation.{statement}
use test_miti_check.Ledger.Durable.{durable}
use test_miti_check.Callback.Metadata.{
  Url, CallbackMetadata, accepted, metadata_from_headers, IsSafe, metadata_from_headers-IsSafe,
}
use test_miti_check.Callback.Deliver.{CallbackDelivery, Client, answered, deliver, payload_of}
use test_miti_check.Callback.Effect.{IsConcluded, deliver-IsConcluded, deliver-delivered}
use test_miti_check.Examples.Codecs.{codec, sample}
use test_miti_check.Examples.Ledgers.{queued_row}

abbrev pub ipv6 : Ipv6
ipv6 = record { parse_ip6 = λ s. none; parse_cidr6 = λ s. none }

abbrev pub describe : RuleError → Text
describe e = []

abbrev pub candidate : CandidateSpec
candidate = record {
  kind = text "firewall-rule";
  engine = text "iptables";
  rule_id = text "egress-1";
  rule = text "-A OUTPUT -p tcp -d 198.51.100.7 --dport 1389 -j DROP";
  action = [];
}

abbrev pub connection : Connection
connection = record {
  protocol = text "tcp";
  src_ip = text "10.0.0.1";
  dst_ip = text "198.51.100.7";
  dst_port = pos 1389;
}

abbrev basis : FirewallTestBasis
basis = record {
  kind = text "firewall";
  proof_basis = text "verified-vuln-artifact";
  connection = connection;
  expected = record { classification = []; blocked = some true; status_code = 0 };
}

abbrev pub untested : RunOutcome
untested = record sample { is_match = false }

matched : (run_firewall ipv6 describe (value candidate) (value basis) untested).is_match ≡ true
unfolding run_firewall text
matched = refl

Mitigates-example :
    ((run_firewall ipv6 describe (value candidate) (value basis) untested).is_match ≡ true
      → Mitigates ipv6 candidate basis)
    × (Mitigates ipv6 candidate basis
        → ((run_firewall ipv6 describe (value candidate) (value basis) untested).is_match ≡ true)
          × ((run_firewall ipv6 describe (value candidate) (value basis) untested).terminal_state
              ≡ blocked))
Mitigates-example = run_firewall-Mitigates ipv6 describe candidate basis untested refl

abbrev pub parse_url : Text → Option Url
parse_url s = some (record {
  scheme = text "https";
  host = text "callbacks.example:443";
  is_user = false;
  fragment = [];
  hostname = text "callbacks.example";
})

abbrev accepted_metadata : CallbackMetadata
accepted_metadata = record {
  url = text "https://callbacks.example:443/done";
  workflow_id = text "workflow-1";
  signal = text "janus.capability-completion.v1";
}

accepts :
    metadata_from_headers parse_url
      (text " https://callbacks.example:443/done")
      (text "workflow-1")
      (text "janus.capability-completion.v1")
      (text "other.example, Callbacks.Example")
    ≡ accepted (some accepted_metadata)
unfolding metadata_from_headers text
accepts = refl

metadata_example : IsSafe parse_url (text "other.example, Callbacks.Example") accepted_metadata
metadata_example =
    metadata_from_headers-IsSafe parse_url (text " https://callbacks.example:443/done")
      (text "workflow-1") (text "janus.capability-completion.v1")
      (text "other.example, Callbacks.Example") accepted_metadata accepts

abbrev delivering_row : Row
delivering_row = record queued_row {
  status = completed;
  callback = record (queued_row.callback) {
    state = some delivering;
    lease_token = some "lease-1";
    lease_expires_at = some 30;
  };
}

abbrev delivery : CallbackDelivery
delivery = record { run = durable codec delivering_row; attempt = 0; lease_token = "lease-1" }

abbrev client : Client
client = record {
  encodes = λ p. true;
  requests = λ u. true;
  send = λ t u p. answered 202 [];
  parse_time = λ s. none;
  clock = 0;
  random = 5;
  print = λ n. "";
}

held : delivers delivery.run.run_status.run_id delivery.lease_token delivering_row ≡ true
unfolding durable
held = refl

IsConcluded-example :
    IsConcluded 10 0 delivering_row
      (apply (statement 10 (deliver client (text "secret") delivery)) delivering_row)
IsConcluded-example =
    deliver-IsConcluded 10 client (text "secret") delivery delivering_row (omega arith) held

delivers_event :
    (apply (statement 10 (deliver client (text "secret") delivery)) delivering_row).callback.state
    ≡ some delivered
unfolding apply statement deliver durable text
delivers_event = refl

delivered_example :
    (is_empty (trim_space (text "secret")) ≡ false)
    × (client.requests delivery.run.callback_url ≡ true)
    × ((header : Text) × (client.send
            (trim_space (text "secret"))
            delivery.run.callback_url
            (payload_of delivery.run)
          ≡ answered 202 header))
delivered_example =
    deliver-delivered 10 client delivery delivering_row held (text "secret") delivers_event
