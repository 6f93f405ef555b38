-- ===== src/Substrate/Azure.antt =====
-- api/substrate_aci.go. The environment and the Azure SDK are parameters.
use test_miti_check.Prelude.{
  ℕ, Bool, Option, none, some, [], ◌∷◌, ◌++◌, ◌&&◌, ◌||◌, not, ltb, leb, eqb, length, if◌then◌else◌,
}
use mathlib.Core.List.{reverse}
use test_miti_check.Prelude.Text.{Text, text, is_empty, to_lower}
use test_miti_check.Prelude.Results.{Result, ok, err}
use test_miti_check.Outcome.{SubInfo}
use test_miti_check.Request.{SubstrateSpec}
use test_miti_check.Substrate.{Resource, group, created, Brought, trim_error, take, release}
use test_miti_check.Substrate.Local.{failed}

-- The IP address of a group: its name and its number.
pub record Address : Type 0 where
  pub fqdn : Option Text
  pub ip : Option Text

-- The settings, and the answers of the SDK: of the credential and the client, of the request for a
-- group, and of its completion, with the address if the group has one.
pub record Azure : Type 0 where
  pub subscription : Text
  pub resource_group : Text
  pub region : Text
  pub tenant : Text
  pub client_id : Text
  pub secret : Text
  pub default_credential : Option Text
  pub secret_credential : Option Text
  pub client : Option Text
  pub begin_create : Text → Text → Option Text
  pub poll_until_done : Text → Result Text (Option Address)

-- The characters of a DNS label.
abbrev pub is_label_char : ℕ → Bool
is_label_char c = (leb 97 c && leb c 122) || (leb 48 c && leb c 57) || eqb c 45

unfoldable pub label : Text → Text
label [] = []
label (c ∷ s) = (if is_label_char c then c else 45) ∷ label s

unfoldable pub drop_hyphens : Text → Text
drop_hyphens [] = []
drop_hyphens (c ∷ s) = let rest = drop_hyphens s in if eqb c 45 then rest else c ∷ s

-- `strings.Trim(s, "-")`.
unfoldable pub trim_hyphens : Text → Text
unfolding drop_hyphens
trim_hyphens s = reverse (drop_hyphens (reverse (drop_hyphens s)))

abbrev pub or_default : Text → Text
or_default s = if is_empty s then text "mc-run" else s

unfoldable pub cut_name : Text → Text
unfolding trim_hyphens take
cut_name name = if ltb 63 (length name) then trim_hyphens (take 63 name) else name

-- `aciName`.
unfoldable pub aci_name : Text → Text
unfolding trim_hyphens label to_lower cut_name text
aci_name run_id = cut_name (or_default (trim_hyphens (label (to_lower run_id))))

-- `aciHost`, with the empty text for none.
unfoldable pub aci_host : Option Address → Text
aci_host none = []
aci_host (some a) = elim (a.fqdn) [
  | some (c ∷ s) ↦ c ∷ s
  | _ ↦ elim (a.ip) [ some ip ↦ ip | none ↦ [] ]
]

abbrev pub assigned : SubInfo → Option Address → SubInfo
assigned info none = info
assigned info (some a) = elim (a.fqdn) [ some n ↦ record info { fqdn = n } | none ↦ info ]

unfoldable pub creating : Azure → SubstrateSpec → Text → Text
unfolding text
creating azure sub name =
    text "creating ACI container group "
    ++ name
    ++ text " ("
    ++ sub.image
    ++ text ") in "
    ++ azure.resource_group
    ++ text "/"
    ++ azure.region

-- A group that was requested and is deleted again.
abbrev pub discarded : SubInfo → Text → Resource → Text → Brought
discarded info step r reason = record {
  info = info;
  steps = step ∷ [];
  calls = created r ∷ release r;
  answer = err reason;
}

unfoldable pub with_group :
    SubInfo → Text → Text → Resource → Result Text (Option Address) → Brought
unfolding trim_error aci_host text
with_group info name step r (err e) =
    discarded info step r (text "ACI provisioning failed: " ++ trim_error e)
with_group info name step r (ok address) =
    let host = aci_host address in
    let base = text "http://" ++ host ++ text ":8080" in
    if is_empty host
    then discarded info step r (text "ACI group has no reachable address")
    else record {
      info = assigned (record info { container_id = name; host_port = 8080 }) address;
      steps = step ∷ (text "ACI group running at " ++ base) ∷ [];
      calls = created r ∷ [];
      answer = ok (record { base = base; resource = r });
    }

-- From the answer to the request for a group on.
unfoldable pub requested : Azure → SubInfo → Text → Text → Option Text → Brought
unfolding with_group trim_error text
requested azure info name step (some e) =
    failed info (step ∷ []) (text "ACI create failed: " ++ trim_error e)
requested azure info name step none =
    with_group info name step (group azure.resource_group name) (azure.poll_until_done name)

-- `bringUpACIWith`, from the answer of the client factory on.
unfoldable pub with_client : Azure → SubInfo → SubstrateSpec → Text → Option Text → Brought
unfolding aci_name creating requested text
with_client azure info sub run_id (some e) = failed info [] (text "azure client init failed: " ++ e)
with_client azure info sub run_id none =
    let name = aci_name run_id in
    requested azure info name (creating azure sub name)
      (azure.begin_create azure.resource_group name)

-- From the answer for a credential on, with what the reason says of it.
unfoldable pub with_credential :
    Azure → SubInfo → SubstrateSpec → Text → Text → Option Text → Brought
unfolding with_client
with_credential azure info sub run_id what (some e) = failed info [] (what ++ e)
with_credential azure info sub run_id what none = with_client azure info sub run_id azure.client

-- `aciConfig`.
abbrev pub is_configured : Azure → Bool
is_configured azure =
    not (is_empty azure.subscription)
    && not (is_empty azure.resource_group)
    && not (is_empty azure.region)

abbrev pub unconfigured : Text
unconfigured =
    text
      "azure ACI not configured (set AZURE_SUBSCRIPTION_ID, MC_ACI_RESOURCE_GROUP, MC_ACI_REGION)"

-- `bringUpACISubstrate`.
unfoldable pub bring_up_aci : Azure → SubInfo → SubstrateSpec → Text → Brought
unfolding with_credential text
bring_up_aci azure info sub run_id =
    if is_configured azure
    then with_credential azure info sub run_id (text "azure credential unavailable: ")
        azure.default_credential
    else failed info [] unconfigured

abbrev pub no_principal : Text
no_principal =
    text
      "azure service principal not configured (set AZURE_TENANT_ID, AZURE_CLIENT_ID, AZURE_CLIENT_SECRET)"

abbrev pub secret_brought : Azure → SubInfo → SubstrateSpec → Text → Brought
secret_brought azure info sub run_id =
    if is_empty azure.tenant || is_empty azure.client_id || is_empty azure.secret
    then failed info [] no_principal
    else with_credential azure info sub run_id (text "azure service principal credential error: ")
        azure.secret_credential

-- `bringUpACISPSubstrate`.
unfoldable pub bring_up_aci_sp : Azure → SubInfo → SubstrateSpec → Text → Brought
unfolding with_credential text
bring_up_aci_sp azure info sub run_id =
    if is_configured azure
    then secret_brought azure info sub run_id
    else failed info [] unconfigured
