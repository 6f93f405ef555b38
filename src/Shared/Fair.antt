-- ===== src/Shared/Fair.antt =====
-- What the result of `executeSharedCase` of api/shared_contract_v2.go says of the case.
use test_miti_check.Prelude.{arith, ◌≡◌, refl, ℕ, Option, none, some, [], ◌∷◌, ◌||◌, if-both}
use test_miti_check.Prelude.Text.{Text, text, text_eq}
use test_miti_check.Prelude.Results.{Result, ok, err}
use test_miti_check.Reference.Json.{Members, string_at}
use test_miti_check.Shared.Input.{HttpInput, RouteBinding}
use test_miti_check.Shared.Pointer.{resolve_body}
use test_miti_check.Shared.Waf.{PreparedWaf, evaluate}
use test_miti_check.Shared.Matched.{Covers, evaluate_from-Covers}
use test_miti_check.Shared.Missed.{Covers-refuted}
use test_miti_check.Shared.Case.{
  Setting, Ran, TemplateResolution, blocked, not_blocked, rendered_route, opaque_route, stop,
  resolve_template, forwarded, answered, judged_case, bodied_case, resolved_case, templated_case,
  decoded_case, execute_case,
}

module _ (setting : Setting) (base profile_id : Text) (waf : PreparedWaf) (enclosing : Members)
    (input_id : Text) (input : Members) where
  -- How the input comes to a request and its route.
  pub data IsRouted : HttpInput → RouteBinding → Type 0 where
    direct : {r : HttpInput} → setting.decode input ≡ ok r → IsRouted r (rendered_route r)
    templated :
        {r : HttpInput} {t : TemplateResolution}
        → setting.decode input ≡ ok r
        → resolve_template setting base profile_id waf enclosing input_id r ≡ ok t
        → IsRouted t.rendered_request (opaque_route r)

  -- The body is that of the request, and some alternative for the route is matched as a whole.
  pub record IsStopped : Type 0 where
    pub request : HttpInput
    pub route : RouteBinding
    pub body : Text
    pub routed : IsRouted request route
    pub bodied : resolve_body setting.codec request.body enclosing ≡ ok body
    pub covers : Covers setting.codec waf request body route waf.alternatives

  -- The one request that was sent is that of the case, it was answered, and no alternative for the
  -- route is matched.
  pub record IsPassed (run : Ran) : Type 0 where
    pub request : HttpInput
    pub route : RouteBinding
    pub body : Text
    pub routed : IsRouted request route
    pub status : ℕ
    pub bodied : resolve_body setting.codec request.body enclosing ≡ ok body
    pub sent : run.sent ≡ forwarded setting base profile_id waf enclosing input_id request body ∷ []
    pub answer :
        setting.send (forwarded setting base profile_id waf enclosing input_id request body)
        ≡ ok status
    pub reported : run.result.evidence.status_code ≡ status
    pub uncovered : Covers setting.codec waf request body route waf.alternatives → ⊥

  pub record IsFair (run : Ran) : Type 0 where
    pub stops : run.result.disposition ≡ blocked → (run.sent ≡ []) × IsStopped
    pub passes : run.result.disposition ≡ not_blocked → IsPassed run

  stop-IsFair : (r : Option TemplateResolution) (e : Text) → IsFair (stop input_id r e)
  stop-IsFair r e = record { stops = λ h. ground arith; passes = λ h. ground arith }

  answered-IsFair :
      (resolution : Option TemplateResolution) (r : HttpInput) (route : RouteBinding)
      (via : IsRouted r route) (body : Text) (answer : Result Text ℕ)
      → resolve_body setting.codec r.body enclosing ≡ ok body
      → (Covers setting.codec waf r body route waf.alternatives → ⊥)
      → setting.send (forwarded setting base profile_id waf enclosing input_id r body) ≡ answer
      → IsFair (
          answered setting base profile_id waf enclosing input_id resolution
            (forwarded setting base profile_id waf enclosing input_id r body)
            answer)
  answered-IsFair resolution r route via body (err e) b f a = record {
    stops = λ h. ground arith;
    passes = λ h. ground arith;
  }
  answered-IsFair resolution r route via body (ok status) b f a = record {
    stops = λ h. ground arith;
    passes = λ h. record {
      request = r;
      route = route;
      body = body;
      routed = via;
      status = status;
      bodied = b;
      sent = refl;
      answer = a;
      reported = refl;
      uncovered = f;
    };
  }

  judged_case-IsFair :
      (resolution : Option TemplateResolution) (r : HttpInput) (route : RouteBinding)
      (via : IsRouted r route) (body : Text) (verdict : Result Text (Option Text))
      → resolve_body setting.codec r.body enclosing ≡ ok body
      → evaluate setting.codec waf r body route ≡ verdict
      → IsFair
          (judged_case setting base profile_id waf enclosing input_id resolution r body verdict)
  unfolding evaluate
  judged_case-IsFair resolution r route via body (err e) b v = stop-IsFair resolution e
  judged_case-IsFair resolution r route via body (ok none) b v =
      answered-IsFair resolution r route via body _ b
        (Covers-refuted setting.codec waf r body route waf.alternatives none v) refl
  judged_case-IsFair resolution r route via body (ok (some rule)) b v = record {
    stops = λ h. (
      refl,
      record {
        request = r;
        route = route;
        body = body;
        routed = via;
        bodied = b;
        covers = evaluate_from-Covers setting.codec waf r body route waf.alternatives none rule v;
      },
    );
    passes = λ h. ground arith;
  }

  bodied_case-IsFair :
      (resolution : Option TemplateResolution) (route : RouteBinding) (r : HttpInput)
      (via : IsRouted r route) (body : Result Text Text)
      → resolve_body setting.codec r.body enclosing ≡ body
      → IsFair (bodied_case setting base profile_id waf enclosing input_id resolution route r body)
  bodied_case-IsFair resolution route r via (err e) b = stop-IsFair resolution e
  bodied_case-IsFair resolution route r via (ok body) b =
      judged_case-IsFair resolution r route via body (evaluate setting.codec waf r body route) b
        refl

  resolved_case-IsFair :
      (resolution : Option TemplateResolution) (route : RouteBinding) (r : HttpInput)
      (via : IsRouted r route)
      → IsFair (resolved_case setting base profile_id waf enclosing input_id resolution route r)
  resolved_case-IsFair resolution route r via =
      bodied_case-IsFair resolution route r via (resolve_body setting.codec r.body enclosing) refl

  templated_case-IsFair :
      (template : HttpInput) (t : Result Text TemplateResolution)
      → setting.decode input ≡ ok template
      → resolve_template setting base profile_id waf enclosing input_id template ≡ t
      → IsFair (templated_case setting base profile_id waf enclosing input_id template t)
  templated_case-IsFair template (err e) d a = stop-IsFair none e
  templated_case-IsFair template (ok t) d a =
      resolved_case-IsFair (some t) (opaque_route template) t.rendered_request (templated d a)

  decoded_case-IsFair :
      (modality : Text) (answer : Result Text HttpInput)
      → setting.decode input ≡ answer
      → IsFair (decoded_case setting base profile_id waf enclosing input_id modality answer)
  decoded_case-IsFair modality (err e) d = stop-IsFair none e
  decoded_case-IsFair modality (ok r) d =
      if-both IsFair (text_eq modality (text "http-request-template")) _ _
        (templated_case-IsFair r (resolve_template setting base profile_id waf enclosing input_id r)
          d refl)
        (resolved_case-IsFair none (rendered_route r) r (direct d))

  -- A case that is reported as blocked sent nothing to the application, and some alternative that
  -- applies to the route of its input has every component matched: a rule of the component
  -- matches some value of its carrier after its transformations. A case that is reported as not
  -- blocked sent exactly its request and reports the status of the answer, and there is no
  -- alternative that applies to its route and has every component matched in that sense,
  -- whichever value of a carrier would match.
  pub execute_case-IsFair :
      IsFair (execute_case setting base profile_id waf enclosing input_id input)
  unfolding execute_case
  execute_case-IsFair =
      let modality = string_at (text "modality") input in
      if-both IsFair
        (text_eq modality (text "http-request") || text_eq modality (text "http-request-template"))
        _ _ (decoded_case-IsFair modality (setting.decode input) refl)
        (record { stops = λ h. ground arith; passes = λ h. ground arith })
