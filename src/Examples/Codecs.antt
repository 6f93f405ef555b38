-- ===== src/Examples/Codecs.antt =====
-- A concrete encoding of two outcomes, and the canonical payload of one.
use native.Mathlib.Decide.{ℕ_discrete}
use Prim.Native.String.{len}
use test_miti_check.Prelude.{
  some-injective, arith, String, Bool, true, false, Option, none, some, [], ◌≡◌, refl, ap, ◌==◌,
  eq→≡, eqb, Bool-cases, eq_refl, inl, inr, if◌then◌else◌,
}
use test_miti_check.Outcome.{RunOutcome, blocked}
use test_miti_check.Canonical.{
  Codec, unsigned_payload, ok, set_canonical_integrity, validate_canonical_result_payload,
  canonical_result_payload,
}
use test_miti_check.Canonical.Integrity.{
  IsCanonical, validate-IsCanonical, canonical_result_payload-set_canonical_integrity,
}

pub differ : {b : Bool} → b ≡ false → b ≡ true → ⊥
differ n e = ground arith

unfoldable pub str_discrete : Discrete String
str_discrete a b = elim (Bool-cases (a == b)) [
  | inl e ↦ yes (eq→≡ a b e)
  | inr n ↦ no (λ e. differ n (rw e (eq_refl b)))
]

unfoldable pub outcome_discrete : Discrete RunOutcome
unfolding str_discrete
outcome_discrete = hlevel (ℕ_discrete, str_discrete)

abbrev pub sample : RunOutcome
sample = record {
  capability = "mitigation-check";
  contract_id = "mitigation-check@1.0";
  request_id = "request-1";
  run_id = "mc-run-1";
  result_id = "mitigation-check-result:1";
  terminal_state = blocked;
  status = "completed";
  correlation_id = "correlation-1";
  result_ref = some (record {
    system = "databricks";
    catalog = "main";
    schema = "mitigation";
    table = "results";
    key = "mitigation-check-result:1";
  });
  evidence_refs = [];
  request_sha256 = "sha256:request";
  profile_id = "";
  is_match = true;
  expected = record { classification = []; blocked = true; status_code = 403 };
  actual = record {
    blocked = true;
    status_code = 403;
    reached_app = false;
    matched_rule_id = [];
    detail = [];
  };
  substrate = record {
    image = [];
    runner = [];
    container_id = [];
    host_port = 0;
    fqdn = [];
    ready = true;
  };
  candidate = none;
  test_basis = none;
  steps = [];
  prose_summary = [];
  limitations = [];
  content_sha256 = "";
  size_bytes = 0;
  created_at = 7;
}

abbrev pub sealed : RunOutcome
sealed = record sample { content_sha256 = "sha256:source"; size_bytes = 6 }

unfoldable pub encode : {o : RunOutcome} → Dec (o ≡ sealed) → Dec (o ≡ sample) → Option String
encode (yes e) d = some "sealed"
encode (no n) (yes e) = some "source"
encode (no n) (no m) = none

unfoldable pub decode : String → Option RunOutcome
decode p = if p == "sealed" then some sealed else if p == "source" then some sample else none

encode-decode :
    (o : RunOutcome) (p : String) (c : Dec (o ≡ sealed)) (d : Dec (o ≡ sample))
    → encode c d ≡ some p
    → decode p ≡ some o
unfolding encode decode
encode-decode o p (yes e) d h = rw (e, ← some-injective h) refl
encode-decode o p (no n) (yes e) h = rw (e, ← some-injective h) refl
encode-decode o p (no n) (no m) h = ground arith

encode-long :
    (o : RunOutcome) (p : String) (c : Dec (o ≡ sealed)) (d : Dec (o ≡ sample))
    → encode c d ≡ some p
    → eqb (len p) 0 ≡ false
unfolding encode
encode-long o p (yes e) d h = rw (← some-injective h) refl
encode-long o p (no n) (yes e) h = rw (← some-injective h) refl
encode-long o p (no n) (no m) h = ground arith

pub write : RunOutcome → Option String
write o = encode (outcome_discrete o sealed) (outcome_discrete o sample)

pub write-sealed : write sealed ≡ some "sealed"
unfolding write encode
write-sealed = encodes (outcome_discrete sealed sealed) (outcome_discrete sealed sample)
  where
    encodes : (c : Dec (sealed ≡ sealed)) (d : Dec (sealed ≡ sample)) → encode c d ≡ some "sealed"
    encodes (yes e) d = refl
    encodes (no n) d = absurd (n refl)

pub write-sample : write sample ≡ some "source"
unfolding write encode
write-sample = encodes (outcome_discrete sample sealed) (outcome_discrete sample sample)
  where
    encodes : (c : Dec (sample ≡ sealed)) (d : Dec (sample ≡ sample)) → encode c d ≡ some "source"
    encodes (yes e) d = let size = ap (λ o. o.size_bytes) e in ground arith
    encodes (no n) (yes e) = refl
    encodes (no n) (no m) = absurd (m refl)

abbrev pub codec : Codec
codec = record {
  marshal = write;
  unmarshal = decode;
  canonicalize = some;
  digest = λ p. "sha256:source";
}

seals : set_canonical_integrity codec sample ≡ ok sealed
unfolding set_canonical_integrity unsigned_payload
seals = rw write-sample refl

pub passes : validate_canonical_result_payload codec sealed "sealed" ≡ ok tt
unfolding validate_canonical_result_payload decode unsigned_payload
passes = rw (write-sample, write-sealed) refl

reads_back : (o : RunOutcome) (p : String) → write o ≡ some p → decode p ≡ some o
unfolding write
reads_back o p = encode-decode o p (outcome_discrete o sealed) (outcome_discrete o sample)

never_empty : (o : RunOutcome) (p : String) → write o ≡ some p → eqb (len p) 0 ≡ false
unfolding write
never_empty o p = encode-long o p (outcome_discrete o sealed) (outcome_discrete o sample)

validate_example : IsCanonical codec sealed "sealed"
validate_example = validate-IsCanonical codec sealed "sealed" passes

canonical_example : canonical_result_payload codec sealed ≡ ok "sealed"
canonical_example =
    canonical_result_payload-set_canonical_integrity codec reads_back never_empty sample sealed
      "sealed" seals write-sealed
