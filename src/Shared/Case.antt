-- ===== src/Shared/Case.antt =====
-- `executeSharedCase` of api/shared_contract_v2.go with `resolveSharedTemplate` and `forwardShared`. The
-- decoding of an input, `url.Values.Encode`, the registered route profiles and the HTTP client are
-- parameters. The body of a rendered template is the one of the template, which is not compared.
use test_miti_check.Prelude.{
  ℕ, Bool, true, false, Option, none, some, List, [], ◌∷◌, ◌++◌, ◌&&◌, ◌||◌, if◌then◌else◌,
}
use test_miti_check.Prelude.Text.{Text, text, text_eq}
use test_miti_check.Prelude.Results.{Result, ok, err, or_error, require, ◌>>=◌, ◌>>◌}
use test_miti_check.Reference.Json.{Members, string_at}
use test_miti_check.Shared.Input.{Field, HttpInput, RouteBinding}
use test_miti_check.Shared.Pointer.{Codec, resolve_body}
use test_miti_check.Shared.Waf.{PreparedWaf, evaluate}

-- `approvedRoute`.
pub record ApprovedRoute : Type 0 where
  pub scheme : Text
  pub authority : Text
  pub path : Text

-- `embeddedRouteProfile`.
pub record RouteProfile : Type 0 where
  pub resolver_id : Text
  pub routes : List (Text × ApprovedRoute)
  pub digest : Text

-- `HttpRequestTemplateResolution`.
pub record TemplateResolution : Type 0 where
  pub template_id : Text
  pub path_key : Text
  pub resolver_id : Text
  pub profile_id : Text
  pub resolver_profile_digest : Text
  pub rendered_request : HttpInput

-- `CaseEvidence`.
pub record CaseEvidence : Type 0 where
  pub blocked : Bool
  pub status_code : ℕ
  pub reached_app : Bool
  pub matched_rule_id : Text
  pub detail : Text

-- The dispositions of a case.
pub data Disposition : Type 0 where
  blocked not_blocked safety_stop unsupported : Disposition

-- `ObligationCaseResult`.
pub record CaseResult : Type 0 where
  pub input_id : Text
  pub disposition : Disposition
  pub resolution : Option TemplateResolution
  pub evidence : CaseEvidence

-- The request that `forwardShared` sends; the body is absent or given.
pub record Forwarded : Type 0 where
  pub method : Text
  pub target : Text
  pub body : Option Text
  pub headers : List Field
  pub cookies : List Field

-- A case that ended, with the requests that it sent to the application.
pub record Ran : Type 0 where
  pub result : CaseResult
  pub sent : List Forwarded

pub record Setting : Type 0 where
  pub codec : Codec
  pub decode : Members → Result Text HttpInput
  pub encode : List Field → Text
  pub profiles : Result Text (List (Text × RouteProfile))
  pub send : Forwarded → Result Text ℕ

unfoldable pub find_entry : {A : Type 0} → Text → List (Text × A) → Option A
unfolding text_eq
find_entry key [] = none
find_entry key ((k, a) ∷ entries) =
    let rest = find_entry key entries in if text_eq k key then some a else rest

-- `equalHTTPFields`.
unfoldable pub equal_fields : List Field → List Field → Bool
unfolding text_eq
equal_fields [] [] = true
equal_fields [] (g ∷ b) = false
equal_fields (f ∷ a) [] = false
equal_fields (f ∷ a) (g ∷ b) = text_eq f.name g.name && text_eq f.value g.value && equal_fields a b

-- `verifyTemplateOwnedFields`.
unfoldable pub same_owned_fields : HttpInput → HttpInput → Bool
unfolding equal_fields text_eq
same_owned_fields template rendered =
    text_eq rendered.method template.method
    && equal_fields rendered.query template.query
    && equal_fields rendered.headers template.headers
    && equal_fields rendered.cookies template.cookies

abbrev pub render : HttpInput → ApprovedRoute → HttpInput
render template route = record template {
  modality = text "http-request";
  path_key = [];
  scheme = route.scheme;
  authority = route.authority;
  path = route.path;
}

abbrev pub detail_of : Text → CaseEvidence
detail_of detail = record {
  blocked = false;
  status_code = 0;
  reached_app = false;
  matched_rule_id = [];
  detail = detail;
}

abbrev pub rendered_route : HttpInput → RouteBinding
rendered_route r = record {
  kind = text "rendered-http-route";
  method = r.method;
  path_key = [];
  scheme = r.scheme;
  authority = r.authority;
  path = r.path;
}

abbrev pub opaque_route : HttpInput → RouteBinding
opaque_route r = record {
  kind = text "opaque-path-key";
  method = r.method;
  path_key = r.path_key;
  scheme = [];
  authority = [];
  path = [];
}

abbrev pub stop : Text → Option TemplateResolution → Text → Ran
stop input_id resolution e = record {
  result = record {
    input_id = input_id;
    disposition = safety_stop;
    resolution = resolution;
    evidence = detail_of e;
  };
  sent = [];
}

module _ (setting : Setting) (base profile_id : Text) (waf : PreparedWaf) (enclosing : Members)
    (input_id : Text) where
  -- `resolveSharedTemplate`.
  unfoldable pub resolve_template : HttpInput → Result Text TemplateResolution
  unfolding find_entry same_owned_fields text_eq text
  resolve_template template = do
    profiles ← setting.profiles
    profile ← or_error (find_entry profile_id profiles) (text "unknown route profile")
    require (text_eq template.modality (text "http-request-template"))
        (text "route adapter accepts only http-request-template")
    route ← or_error (find_entry template.path_key profile.routes) (text "unknown path_key")
    require (same_owned_fields template (render template route))
        (text "route adapter changed template-owned fields")
    ok (record {
      template_id = input_id;
      path_key = template.path_key;
      resolver_id = profile.resolver_id;
      profile_id = profile_id;
      resolver_profile_digest = profile.digest;
      rendered_request = render template route;
    })

  abbrev pub with_query : Text → Text
  with_query [] = []
  with_query (c ∷ encoded) = b'?' ∷ c ∷ encoded

  -- The request of `forwardShared`.
  unfoldable pub forwarded : HttpInput → Text → Forwarded
  unfolding text_eq text
  forwarded r body = record {
    method = r.method;
    target = base ++ (r.path ++ with_query (setting.encode r.query));
    body = if text_eq r.body.state (text "absent") then none else some body;
    headers = r.headers;
    cookies = r.cookies;
  }

  abbrev pub answered : Option TemplateResolution → Forwarded → Result Text ℕ → Ran
  answered resolution f (err e) = record (stop input_id resolution e) { sent = f ∷ [] }
  answered resolution f (ok status) = record {
    result = record {
      input_id = input_id;
      disposition = not_blocked;
      resolution = resolution;
      evidence = record {
        blocked = false;
        status_code = status;
        reached_app = true;
        matched_rule_id = [];
        detail = text "request reached bounded substrate";
      };
    };
    sent = f ∷ [];
  }

  abbrev pub judged_case :
      Option TemplateResolution → HttpInput → Text → Result Text (Option Text) → Ran
  judged_case resolution r body (err e) = stop input_id resolution e
  judged_case resolution r body (ok (some rule)) = record {
    result = record {
      input_id = input_id;
      disposition = blocked;
      resolution = resolution;
      evidence = record {
        blocked = true;
        status_code = 403;
        reached_app = false;
        matched_rule_id = rule;
        detail = text "complete WAF application unit matched";
      };
    };
    sent = [];
  }
  judged_case resolution r body (ok none) =
      answered resolution (forwarded r body) (setting.send (forwarded r body))

  abbrev pub bodied_case :
      Option TemplateResolution → RouteBinding → HttpInput → Result Text Text → Ran
  bodied_case resolution route r (err e) = stop input_id resolution e
  bodied_case resolution route r (ok body) =
      judged_case resolution r body (evaluate setting.codec waf r body route)

  abbrev pub resolved_case : Option TemplateResolution → RouteBinding → HttpInput → Ran
  resolved_case resolution route r =
      bodied_case resolution route r (resolve_body setting.codec r.body enclosing)

  abbrev pub templated_case : HttpInput → Result Text TemplateResolution → Ran
  templated_case template (err e) = stop input_id none e
  templated_case template (ok t) = resolved_case (some t) (opaque_route template) t.rendered_request

  abbrev pub decoded_case : Text → Result Text HttpInput → Ran
  decoded_case modality (err e) = stop input_id none e
  decoded_case modality (ok r) =
      if text_eq modality (text "http-request-template")
      then templated_case r (resolve_template r)
      else resolved_case none (rendered_route r) r

  -- `executeSharedCase`.
  unfoldable pub execute_case : Members → Ran
  unfolding string_at resolve_template resolve_body evaluate forwarded text_eq text
  execute_case input =
      let modality = string_at (text "modality") input in
      if text_eq modality (text "http-request") || text_eq modality (text "http-request-template")
      then decoded_case modality (setting.decode input)
      else record (stop input_id none
          (text "WAF-first slice does not execute modality " ++ modality)) {
            result = record {
              input_id = input_id;
              disposition = unsupported;
              resolution = none;
              evidence = detail_of (text "WAF-first slice does not execute modality " ++ modality);
            };
          }
