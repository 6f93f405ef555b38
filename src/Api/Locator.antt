-- ===== src/Api/Locator.antt =====
-- `ImmutableResultLocator`, `validateImmutableLocator` and `validSHA256` of
-- api/executor_locator.go, and `validateSharedV2CheckLocator` of api/shared_contract_v2.go.
use test_miti_check.Prelude.{
  ℕ, ◌%◌, Bool, true, false, Option, none, some, [], ◌∷◌, ◌++◌, ◌&&◌, ◌||◌, not, leb, eqb, length,
}
use test_miti_check.Prelude.Text.{Text, text, text_eq, is_empty, has_prefix, drop_prefix, to_lower}

-- `upstreamRef`.
pub record UpstreamRef : Type 0 where
  pub system : Text
  pub catalog : Text
  pub schema : Text
  pub table : Text
  pub key : Text

pub record Locator : Type 0 where
  pub capability : Text
  pub contract_id : Text
  pub request_id : Text
  pub correlation_id : Text
  pub run_id : Text
  pub result_id : Text
  pub status : Text
  pub terminal_state : Text
  pub result_ref : UpstreamRef
  pub content_sha256 : Text
  pub size_bytes : ℕ
  pub created_at : Text

-- `capDefenseGeneration` and `capCheckGeneration`.
pub data Producer : Type 0 where
  defense_generation check_generation : Producer

unfoldable pub capability_of : Producer → Text
unfolding text
capability_of defense_generation = text "defense-generation"
capability_of check_generation = text "check-generation"

unfoldable pub contract_of : Producer → Text
unfolding text
contract_of defense_generation = text "defense-generation-result@1.0"
contract_of check_generation = text "check-generation-result@1.0"

unfoldable pub schema_of : Producer → Text
unfolding text
schema_of defense_generation = text "defense_generation"
schema_of check_generation = text "check_generation"

unfoldable pub table_of : Producer → Text
unfolding text
table_of defense_generation = text "defense_generation_results"
table_of check_generation = text "check_generation_results"

unfoldable pub terminal_of : Producer → Text
unfolding text
terminal_of defense_generation = text "candidate-produced"
terminal_of check_generation = text "completed"

abbrev pub is_hex : ℕ → Bool
is_hex c = (leb 48 c && leb c 57) || (leb 65 c && leb c 70) || (leb 97 c && leb c 102)

unfoldable pub all_hex : Text → Bool
all_hex [] = true
all_hex (c ∷ s) = is_hex c && all_hex s

-- `hex.DecodeString` takes an even number of hexadecimal digits.
unfoldable pub decodes : Option Text → Bool
unfolding all_hex
decodes none = false
decodes (some s) = all_hex s && eqb (length s % 2) 0

unfoldable pub valid_sha256 : Text → Bool
unfolding drop_prefix decodes text text_eq to_lower
valid_sha256 v =
    eqb (length v) 71 && decodes (drop_prefix (text "sha256:") v) && text_eq v (to_lower v)

abbrev pub max_payload : ℕ
max_payload = 209_715_200

-- The locator's `result_id` in terms of its producer.
unfoldable pub derives : Producer → Locator → Bool
unfolding text drop_prefix text_eq
derives defense_generation l = has_prefix l.result_id (text "defense-generation-result:")
derives check_generation l = text_eq l.result_id (text "check-generation-result:" ++ l.run_id)

unfoldable pub identifies : Producer → Locator → Bool
unfolding text_eq capability_of contract_of terminal_of text
identifies p l =
    text_eq l.capability (capability_of p)
    && text_eq l.contract_id (contract_of p)
    && not (is_empty l.request_id)
    && not (is_empty l.correlation_id)
    && not (is_empty l.run_id)
    && not (is_empty l.result_id)
    && text_eq l.status (text "completed")
    && text_eq l.terminal_state (terminal_of p)

unfoldable pub refers : Producer → Locator → Bool
unfolding text_eq schema_of table_of text
refers p l =
    text_eq l.result_ref.system (text "databricks")
    && text_eq l.result_ref.catalog (text "36889_janus_dev")
    && text_eq l.result_ref.schema (schema_of p)
    && text_eq l.result_ref.table (table_of p)
    && text_eq l.result_ref.key l.result_id

-- `is_stamp` is whether `time.Parse` reads an RFC 3339 time that is not the zero time.
unfoldable pub valid_locator : (Text → Bool) → Producer → Locator → Bool
unfolding identifies derives refers valid_sha256
valid_locator is_stamp p l =
    identifies p l
    && derives p l
    && refers p l
    && valid_sha256 l.content_sha256
    && leb 1 l.size_bytes
    && leb l.size_bytes max_payload
    && is_stamp l.created_at

unfoldable pub valid_check_locator : (Text → Bool) → Locator → Bool
unfolding valid_locator text_eq text contract_of
valid_check_locator is_stamp l =
    text_eq l.contract_id (text "check-generation@2.1")
    && valid_locator is_stamp check_generation
        (record l { contract_id = contract_of check_generation })
