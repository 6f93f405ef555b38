-- ===== src/Examples/Cases.antt =====
-- Concrete cases of a shared attack contract.
use test_miti_check.Prelude.{none, some, [], ◌∷◌, ◌≡◌, refl}
use test_miti_check.Prelude.Text.{Text, text, cut_text, contains}
use test_miti_check.Prelude.Text.Numbers.{pos}
use test_miti_check.Prelude.Results.{ok}
use test_miti_check.Reference.Json.{null, string, Members, no_members, member}
use test_miti_check.Shared.Input.{HttpInput}
use test_miti_check.Shared.Pointer.{Codec}
use test_miti_check.Shared.Waf.{PreparedRule, PreparedWaf}
use test_miti_check.Shared.Case.{
  Setting, ApprovedRoute, RouteProfile, blocked, not_blocked, execute_case,
}
use test_miti_check.Shared.Fair.{IsFair, execute_case-IsFair}

abbrev codec : Codec
codec = record {
  scan = λ s. none;
  decode64 = ok;
  decode_hex = ok;
  digest = λ s. s;
  escape = λ s. s;
  unescape = ok;
  ecma = some;
  decode_strict = λ s. ok null;
}

abbrev template : HttpInput
template = record {
  modality = text "http-request-template";
  method = text "GET";
  scheme = [];
  authority = [];
  path = [];
  path_key = text "search";
  query = record { name = text "q"; value = text "1 UNION SELECT 2" } ∷ [];
  headers = [];
  cookies = [];
  body = record {
    state = text "absent";
    content_base64 = [];
    content_length = pos 0;
    digest = [];
    content = none;
  };
}

abbrev route : ApprovedRoute
route = record { scheme = text "https"; authority = text "a.example"; path = text "/search" }

abbrev profile : RouteProfile
profile = record {
  resolver_id = text "resolver";
  routes = (text "search", route) ∷ [];
  digest = text "d";
}

abbrev setting : Setting
setting = record {
  codec = codec;
  decode = λ ms. ok template;
  encode = λ fields. [];
  profiles = ok ((text "p", profile) ∷ []);
  send = λ f. ok 200;
}

abbrev injection : Text → PreparedRule
injection pattern = record {
  id = text "r-1";
  carrier = text "query";
  name = text "q";
  pattern = λ s. contains s pattern;
  transformations = text "lowercase" ∷ [];
}

abbrev waf : Text → PreparedWaf
waf pattern = record {
  rules = (text "c-1", injection pattern) ∷ [];
  alternatives = record { component_ids = text "c-1" ∷ []; route = none } ∷ [];
}

abbrev input : Members
input = member (text "modality") (string (text "http-request-template")) no_members

stopped :
    (execute_case setting []
      (text "p")
      (waf (text "union select"))
      no_members
      (text "i-1")
      input).result.disposition
    ≡ blocked
unfolding execute_case cut_text text
stopped = refl

passed :
    (execute_case setting []
      (text "p")
      (waf (text "<script>"))
      no_members
      (text "i-1")
      input).result.disposition
    ≡ not_blocked
unfolding execute_case cut_text text
passed = refl

IsFair-example :
    IsFair setting []
      (text "p")
      (waf (text "union select"))
      no_members
      (text "i-1")
      input
      (execute_case setting [] (text "p") (waf (text "union select")) no_members (text "i-1") input)
IsFair-example =
    execute_case-IsFair setting [] (text "p") (waf (text "union select")) no_members (text "i-1")
      input
