-- ===== src/Api/Answers.antt =====
-- What the handlers of api/lifecycle.go answer to the same submission again, and to the test of a
-- firewall rule.
use test_miti_check.Prelude.{
  arith, ℕ, String, ◌≡◌, refl, ap, Bool, true, false, Option, none, some, List, ◌==◌, ◌||◌, not,
  if◌then◌else◌,
}
use test_miti_check.Prelude.Text.{Text, text_eq, is_empty, trim_space}
use test_miti_check.Request.{Raw, missing, garbled, value}
use test_miti_check.Firewall.Verdict.{FirewallTestBasis}
use test_miti_check.Ledger.Row.{Row}
use test_miti_check.Ledger.Durable.{DurableRun}
use test_miti_check.Ledger.Store.{NewRun, create_or_get}
use test_miti_check.Ledger.Idempotency.{create_or_get-again}
use test_miti_check.Callback.Metadata
use test_miti_check.Callback.Metadata.{CallbackMetadata, accepted, refused, metadata_from_headers}
use test_miti_check.Api.Submission.{
  SubmitRequest, BasisDocument, normalize_request_defaults, as_firewall,
}
use test_miti_check.Api.Validate.{validate}
use test_miti_check.Api.Submit.{
  Server, Moment, Headers, Body, Answer, SubmissionResponse, error, submission, Code, respond,
  answer_of, refuse_if, submit_body, submit_called_back, store_as, new_run, store_run,
  submit_request, handle_async_submit, identify, metadata, decode_request, is_nil, submission_from,
  success_code, same_callback, is_json, unsupported_media_type, missing_required_header,
  invalid_request, invalid_callback_location, request_identity_mismatch,
}

case-error :
    (a : ℕ) (c : Code) (b : Bool) (k : ℕ) (s : SubmissionResponse)
    → error a c b ≡ submission k s
    → ⊥
case-error a c b k s h = ground arith

-- What lets the answer of the ledger through.
record Passes (n : NewRun) (rows rows' : List Row) (o : Option (List Row × DurableRun × Bool))
    (s : SubmissionResponse) : Type 0 where
  run : DurableRun
  created : Bool
  stored : o ≡ some (rows', run, created)
  named : s ≡ submission_from run
  digest : (run.request_digest == n.request_digest) ≡ true
  callback : same_callback run n ≡ true

-- Of two refusals and a submission, the submission.
picked :
    (a b : Bool) (t : SubmissionResponse) (j i : ℕ) (k : ℕ) (s : SubmissionResponse) (l : ℕ)
    (c c' : Code) (e : Bool)
    → (if not a then error i c e else if not b then error l c' e else submission j t)
      ≡ submission k s
    → (s ≡ t) × (a ≡ true) × (b ≡ true)
picked true true t j i k s l c c' e h = (ground arith, refl, refl)
picked true false t j i k s l c c' e h = ground arith
picked false b t j i k s l c c' e h = ground arith

unless-none :
    {A : Type 0} (b : Bool) (o : Option A) (x : A) → (if b then none else o) ≡ some x → o ≡ some x
unless-none true o x h = ground arith
unless-none false o x h = h

answer_of-submission :
    (n : NewRun) (d : DurableRun) (created : Bool) (k : ℕ) (s : SubmissionResponse)
    → answer_of n d created ≡ submission k s
    → (s ≡ submission_from d)
      × ((d.request_digest == n.request_digest) ≡ true)
      × (same_callback d n ≡ true)
unfolding answer_of
answer_of-submission n d created k s h =
    picked (d.request_digest == n.request_digest) (same_callback d n) _ _ _ k s _ _ _ _ h

respond-Passes :
    (n : NewRun) (rows rows' : List Row) (o : Option (List Row × DurableRun × Bool)) (k : ℕ)
    (s : SubmissionResponse)
    → respond n rows o ≡ (rows', submission k s)
    → Passes n rows rows' o s
unfolding respond
respond-Passes n rows rows' none k s h = absurd (case-error _ _ _ _ _ (ap (λ x. x.1) h))
respond-Passes n rows rows' (some (t, d, created)) k s h =
    let (named, digest, callback) = answer_of-submission n d created k s (ap (λ x. x.1) h) in
    record {
      run = d;
      created = created;
      stored = ap (λ x. some (x.0, d, created)) h;
      named = named;
      digest = digest;
      callback = callback;
    }

passes-respond :
    (n : NewRun) (rows : List Row) (d : DurableRun)
    → (d.request_digest == n.request_digest) ≡ true
    → same_callback d n ≡ true
    → respond n rows (some (rows, d, false))
      ≡ (rows, submission (success_code false d.run_status.status) (submission_from d))
unfolding respond
passes-respond n rows d hd hc = rw (hd, hc) refl

module _ (server : Server) (at again : Moment) (up : again.down ≡ false) where
  -- The call again, on the table that the first call left.
  abbrev Again : (List Row × Answer) → List Row → SubmissionResponse → Type 0
  Again a rows' s = (k : ℕ) × (a ≡ (rows', submission k s))

  -- A refusal that the first call was not given is not given again.
  past-refusal :
      (b : Bool) (status : ℕ) (c : Code) (then_at then_again : List Row × Answer)
      (rows rows' : List Row) (k : ℕ) (s : SubmissionResponse)
      → refuse_if b status c rows then_at ≡ (rows', submission k s)
      → (then_at ≡ (rows', submission k s) → Again then_again rows' s)
      → Again (refuse_if b status c rows' then_again) rows' s
  unfolding refuse_if
  past-refusal true status c then_at then_again rows rows' k s h f =
      absurd (case-error _ _ _ _ _ (ap (λ x. x.1) h))
  past-refusal false status c then_at then_again rows rows' k s h f = f h

  store_as-Again :
      (r : SubmitRequest) (m : CallbackMetadata) (rows rows' : List Row)
      (o : Option (String × String)) (k : ℕ) (s : SubmissionResponse)
      → store_as server at r m rows o ≡ (rows', submission k s)
      → Again (store_as server again r m rows' o) rows' s
  unfolding store_as new_run
  store_as-Again r m rows rows' none k s h = absurd (case-error _ _ _ _ _ (ap (λ x. x.1) h))
  store_as-Again r m rows rows' (some (request, digest)) k s h =
      let n = new_run at r m request digest in
      let n' = new_run again r m request digest in
      let o = create_or_get server.codec n rows in
      let p = respond-Passes n rows rows' (if at.down then none else o) k s h in
      let first = unless-none at.down o (rows', p.run, p.created) p.stored in
      let second = create_or_get-again server.codec n n' rows rows' p.run p.created first refl in
      (
        success_code false p.run.run_status.status,
        rw (up, second, p.named) (passes-respond n' rows' p.run p.digest p.callback),
      )

  submit_request-Again :
      (key correlation : Text) (m : CallbackMetadata) (r : SubmitRequest) (rows rows' : List Row)
      (k : ℕ) (s : SubmissionResponse)
      → submit_request server at key correlation m r rows ≡ (rows', submission k s)
      → Again (submit_request server again key correlation m r rows') rows' s
  unfolding submit_request store_run
  submit_request-Again key correlation m given rows rows' k s h =
      let r = normalize_request_defaults (identify key correlation given) in
      let b3 = r.has_callback in
      let b2 = not (is_nil (validate server.is_stamp server.print r)) in
      let b1 = not (text_eq r.request_id key) || not (text_eq r.correlation_id correlation) in
      let n3 = store_run server at r m rows in
      let a3 = store_run server again r m rows' in
      let n2 = refuse_if b3 400 invalid_callback_location rows n3 in
      let a2 = refuse_if b3 400 invalid_callback_location rows' a3 in
      let n1 = refuse_if b2 400 invalid_request rows n2 in
      let a1 = refuse_if b2 400 invalid_request rows' a2 in
      past-refusal b1 400 request_identity_mismatch n1 a1 rows rows' k s h (λ h1.
        past-refusal b2 400 invalid_request n2 a2 rows rows' k s h1 (λ h2.
          past-refusal b3 400 invalid_callback_location n3 a3 rows rows' k s h2
            (λ h3. store_as-Again r m rows rows' (server.normalized r) k s h3)))

  submit_body-Again :
      (key correlation : Text) (m : CallbackMetadata) (o : Option SubmitRequest)
      (rows rows' : List Row) (k : ℕ) (s : SubmissionResponse)
      → submit_body server at key correlation m o rows ≡ (rows', submission k s)
      → Again (submit_body server again key correlation m o rows') rows' s
  unfolding submit_body
  submit_body-Again key correlation m none rows rows' k s h =
      absurd (case-error _ _ _ _ _ (ap (λ x. x.1) h))
  submit_body-Again key correlation m (some r) rows rows' k s h =
      submit_request-Again key correlation m r rows rows' k s h

  submit_called_back-Again :
      (key correlation : Text) (a : Metadata.Answer) (body : Body) (rows rows' : List Row) (k : ℕ)
      (s : SubmissionResponse)
      → submit_called_back server at key correlation a body rows ≡ (rows', submission k s)
      → Again (submit_called_back server again key correlation a body rows') rows' s
  unfolding submit_called_back
  submit_called_back-Again key correlation (refused e) body rows rows' k s h =
      absurd (case-error _ _ _ _ _ (ap (λ x. x.1) h))
  submit_called_back-Again key correlation (accepted m) body rows rows' k s h =
      submit_body-Again key correlation (metadata m) (decode_request body) rows rows' k s h

  -- A submission that was answered with a run is idempotent: the same headers and body again, at
  -- another moment at which the database answers, are answered with the same run, and the table of
  -- runs stays as it is.
  pub handle_async_submit-Again :
      (h : Headers) (body : Body) (rows rows' : List Row) (k : ℕ) (s : SubmissionResponse)
      → handle_async_submit server at h body rows ≡ (rows', submission k s)
      → Again (handle_async_submit server again h body rows') rows' s
  unfolding handle_async_submit
  handle_async_submit-Again h body rows rows' k s e =
      let key = trim_space h.idempotency_key in
      let correlation = trim_space h.correlation_id in
      let given =
        metadata_from_headers server.parse_url h.callback_url h.callback_workflow_id
          h.callback_signal server.allowed_hosts in
      let b1 = not (is_json h.media_type) in
      let b2 = is_empty key || is_empty correlation in
      let n2 = submit_called_back server at key correlation given body rows in
      let a2 = submit_called_back server again key correlation given body rows' in
      let n1 = refuse_if b2 400 missing_required_header rows n2 in
      let a1 = refuse_if b2 400 missing_required_header rows' a2 in
      past-refusal b1 415 unsupported_media_type n1 a1 rows rows' k s e (λ e1.
        past-refusal b2 400 missing_required_header n2 a2 rows rows' k s e1
          (λ e2. submit_called_back-Again key correlation given body rows rows' k s e2))

-- `json.Unmarshal` of a raw member into the firewall's test.
abbrev pub read_firewall : Raw BasisDocument → Raw FirewallTestBasis
read_firewall missing = missing
read_firewall garbled = garbled
read_firewall (value d) = value (as_firewall d)
