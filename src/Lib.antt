-- ===== src/Lib.antt =====
-- The mitigation-check service, api/: it accepts requests to check a mitigation, stores each as a run
-- in the table `mitigation_check_run` (the ledger), executes the runs in workers, publishes each
-- result once to a Databricks table, and tells the caller by a callback.
--
-- The parts, and the files that model them:
-- Outcome and Request: `RunOutcome` of api/executor.go and the request parts of api/main.go, with the
-- fields that the modelled code reads. The shared-contract fields of a result are left out.
-- Canonical: `setCanonicalIntegrity` of api/lifecycle.go, `canonicalResultPayload` and
-- `validateCanonicalResultPayload` of api/lifecycle_store.go. JSON, RFC 8785 and SHA-256 are the
-- fields of a `Codec`, so that no theorem depends on a particular encoding.
-- Ledger: api/lifecycle_store.go. A row is a record with the columns as fields. An UPDATE is a
-- `Statement` with its WHERE clause as `guard` and its SET clause as `assign`; `Operation` names one for
-- each method of `RunStore` that writes. A history is a list of operations with their times, by any
-- processes in any order, since each method is one transaction on one row. `Store` has the methods
-- that choose or insert a row; a row that another transaction has locked is skipped.
-- Databricks: `Publish`, `Verify` and the insert-only MERGE of api/databricks.go, on a list of rows. A
-- connection may lose the MERGE or its answer, and a read may break off.
-- Worker: `executeOne` of api/worker.go in a state monad over the ledger, the result table and a trace of
-- what the worker did. Before each call of the worker the other processes do any operations on the
-- ledger and any merges, and each call may fail. The heartbeats are a number of ticks before the
-- executor's answer; a later heartbeat, and the progress that an executor reports, are among the
-- operations of the others.
-- Callback: api/callback.go. The HTTP client, `url.Parse` and `http.ParseTime` are parameters. A
-- delivery is the ledger operation by which it ends.
-- Api: the handlers of api/lifecycle.go, `validate` of api/main.go, and the locator rules of
-- api/executor_locator.go and api/shared_contract_v2.go. A JSON member is absent, refused by the
-- decoder, or decoded.
-- Waf: `executeScenario` of api/executor.go and what it calls. `Pattern` has the regular expressions
-- of the repository as scanners, `Target` the values that a target selects, `Rule` the compiled
-- rule, and `Scenario` the run, from the request to the outcome, with its calls to the substrate in
-- order. The engine of package regexp and the parsers of package net/url are parameters.
-- Substrate: what puts an application behind the WAF, in api/executor.go, api/substrate_inmemory.go,
-- api/substrate_aci.go, api/substrate_github.go and api/substrate_github_ghcr.go. The answers of
-- Docker, Azure, GitHub and the image registry are parameters, and bringing a substrate up returns
-- what it leaves in the outcome and the calls that it made. A creation that is answered with an
-- error is taken to have created nothing, although the limit of 120 seconds on `docker run` may
-- leave a container behind. A polling loop is given what its rounds meet up to its deadline or the
-- end of its context, after which it answers as the code does.
-- Upstream: `executeScenarioUpstream` of api/executor_upstream.go and api/stimulus.go, which find the
-- rule and the test of a run in Databricks and pass them to `executeScenario`. A query is a function
-- of its text and its key.
-- Reference: `executeScenarioByLocator` of api/executor_locator.go: the rows that two locators name,
-- their verification (`Defense`, `Check`, `Checked`), the JSON values and the RFC 8785 form that
-- their digests are taken of (`Json`), and the run of the rule and the test that they hold
-- (`Resolve`). `Config` and `Rows` read the rows from Databricks. The decoders, SHA-256, the HTTP
-- client and the reading of addresses, times and numbers are parameters. A digest and a size are
-- those of a text in UTF-8. The text of an error that wraps an error of a parameter is its own part
-- only.
-- Shared: the execution of one case of a shared attack contract, `executeSharedCase` of
-- api/shared_contract_v2.go. `Input` has requests and routes, `Pointer` the content that a body refers
-- to, `Waf` the prepared rules, and `Case` the run, which keeps the requests that it tried to send. The
-- decoders of JSON, base 64, hexadecimal digits and escapes, the route profiles, the compiled regular
-- expressions and the HTTP client are parameters.
-- Firewall: api/substrate_firewall.go, with addresses and networks of Go's package net.
-- Prelude: the shared tests, list functions, texts as lists of code points with the functions of
-- Go's packages strings and strconv that the code calls, and 64-bit integers. Examples: concrete
-- inputs, at which the theorems are applied.
--
-- Times and durations are whole microseconds; a time zone or a clock that goes back is not
-- distinguished, since no theorem asks times to grow. Letter case is folded for ASCII. The loop of
-- `parseDports` runs at most 65536 times, as in the code; the loop of `verificationDelay` runs once for
-- each attempt. The nine members of a defense-generation result that a request may carry are one
-- Boolean, whether one is present.
--
-- The lengths that the executor cuts texts at count code points, which are bytes for ASCII texts.
-- A Go map is the list of its entries.
--
-- Not modelled: the validation and the preparation of shared contracts (api/shared_contract_v2.go),
-- so the executor stays the worker's parameter `execute`; the synchronous compatibility path and its
-- rows without a status (api/store.go); the HTTP clients, the credentials and the encryption of a
-- secret in the substrates, the log, the connection set-up and the migration, which only do input
-- and output; the command line of api/stimulus.go; and the vendored JSON schema validator.
mod Prelude
pub mod Outcome
pub mod Request
pub mod Firewall
pub mod Canonical
pub mod Databricks
pub mod Ledger
pub mod Worker
pub mod Substrate
pub mod Waf
pub mod Upstream
pub mod Reference
pub mod Shared
pub mod Callback
pub mod Api
mod Examples
