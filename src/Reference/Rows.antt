-- ===== src/Reference/Rows.antt =====
-- `statementLocatorRowSource` of api/executor_locator.go: the row source over the APIs of Databricks for
-- statements and files. The HTTP client and the decoding of an answer are parameters; an answer's body
-- is read whole, where the code stops after one byte too many.
use test_miti_check.Prelude.{
  ℕ, ◌+◌, ◌/◌, Option, List, [], ◌∷◌, ◌++◌, ◌&&◌, eqb, ltb, leb, if◌then◌else◌,
}
use test_miti_check.Prelude.Text.{
  Text, text, text_eq, is_empty, trim_space, to_lower, has_prefix, drop_prefix,
}
use test_miti_check.Prelude.Text.Numbers.{ℤ, pos, leb_int, eqb_int, decimal}
use test_miti_check.Prelude.Results.{Result, ok, err, or_error, require, ◌>>=◌, ◌>>◌}
use test_miti_check.Api.Locator.{max_payload}
use test_miti_check.Upstream.Execute.{because}
use test_miti_check.Reference.Json.{byte_count}
use test_miti_check.Reference.Defense.{DefenseRow}
use test_miti_check.Reference.Check.{CheckRow, first_chars}
use test_miti_check.Reference.Config.{Config}
use test_miti_check.Reference.Resolve.{Source}

-- `locatorStatementRequest` with its one parameter `result_id`.
pub record StatementRequest : Type 0 where
  pub statement : Text
  pub warehouse_id : Text
  pub wait_timeout : Text
  pub result_id : Text

-- A request to an address, with the bearer token.
pub data Request : Type 0 where
  post : Text → Text → StatementRequest → Request
  get : Text → Text → Request

pub record Response : Type 0 where
  pub status : ℕ
  pub body : Text

-- What the body of an answer to a statement decodes to.
pub record StatementAnswer : Type 0 where
  pub state : Text
  pub message : Text
  pub rows : List (List Text)

pub record Client : Type 0 where
  pub send : Request → Result Text Response
  pub decode : Text → Option StatementAnswer
  pub parse_int : Text → Option ℤ

-- The timeout in whole seconds, a half rounded up, between 5 and 50.
unfoldable pub wait_seconds : ℕ → ℕ
wait_seconds timeout =
    let seconds = (timeout + 500_000) / 1_000_000 in
    if ltb seconds 5 then 5 else if ltb 50 seconds then 50 else seconds

-- `truncateLocatorError`.
unfoldable pub truncate_error : Text → Text
unfolding trim_space byte_count first_chars text
truncate_error body =
    let value = trim_space body in
    if ltb 500 (byte_count value) then first_chars 500 value ++ text "..." else value

-- A state of a statement other than `SUCCEEDED`.
abbrev pub failure : StatementAnswer → Text
failure a =
    if is_empty a.message
    then text "Databricks statement did not succeed: " ++ a.state
    else text "Databricks statement " ++ (to_lower a.state ++ (text ": " ++ a.message))

abbrev pub defense_rows : List (List Text) → Result Text (List DefenseRow)
defense_rows [] = ok []
defense_rows ((a ∷ b ∷ c ∷ d ∷ []) ∷ values) = do
  rows ← defense_rows values
  ok (record { run_id = a; result_id = b; terminal_state = c; result_json = d } ∷ rows)
defense_rows (row ∷ values) = err (text "Defense Generation locator row is incomplete")

module _ (client : Client) (config : Config) where
  -- The rows of an answer that came.
  unfoldable pub answer_rows : Response → Result Text (List (List Text))
  unfolding byte_count truncate_error decimal to_lower text_eq text
  answer_rows response = do
    require (leb (byte_count response.body) 4_194_304)
        (text "Databricks Statement Execution response exceeds byte limit")
    require (leb 200 response.status && ltb response.status 300) (
        text "Databricks Statement Execution returned HTTP "
        ++ (decimal response.status ++ (text ": " ++ truncate_error response.body)))
    answer ←
        or_error (client.decode response.body)
          (text "decode Databricks Statement Execution response")
    require (text_eq answer.state (text "SUCCEEDED")) (failure answer)
    ok answer.rows

  -- `execute`.
  unfoldable pub execute : Text → Text → Result Text (List (List Text))
  unfolding wait_seconds answer_rows decimal text
  execute statement result_id = do
    response ← because (text "Databricks Statement Execution request: ") (
        client.send (
          post (config.base_url ++ text "/api/2.0/sql/statements") config.token (record {
            statement = statement;
            warehouse_id = config.warehouse_id;
            wait_timeout = decimal (wait_seconds config.timeout) ++ text "s";
            result_id = result_id;
          })))
    answer_rows response

  unfoldable pub check_row_of : List Text → Result Text CheckRow
  unfolding text
  check_row_of (a ∷ b ∷ c ∷ d ∷ e ∷ f ∷ g ∷ h ∷ i ∷ j ∷ k ∷ l ∷ []) = do
    size ← or_error (client.parse_int k) (text "Check Generation result_size_bytes is invalid")
    ok (record {
      result_id = a;
      run_id = b;
      request_id = c;
      correlation_id = d;
      capability = e;
      terminal_state = f;
      status = g;
      result_json = h;
      completion_json = i;
      result_sha256 = j;
      result_size_bytes = size;
      created_at = l;
    })
  check_row_of _ = err (text "Check Generation locator row is incomplete")

  unfoldable pub check_rows : List (List Text) → Result Text (List CheckRow)
  unfolding check_row_of
  check_rows [] = ok []
  check_rows (values ∷ more) = do row ← check_row_of values; rows ← check_rows more; ok (row ∷ rows)

  abbrev pub defense_statement : Text
  defense_statement =
      text "SELECT run_id, result_id, terminal_state, TO_JSON(result_json) FROM "
      ++ text "`36889_janus_dev`.`defense_generation`.`defense_generation_results` "
      ++ text "WHERE result_id = :result_id LIMIT 2"

  abbrev pub check_statement : Text
  check_statement =
      text
        "SELECT result_id, run_id, request_id, correlation_id, capability, terminal_state, status, "
      ++ text "TO_JSON(result_json), TO_JSON(completion_json), result_sha256, "
      ++ text "CAST(result_size_bytes AS STRING), CAST(created_at AS STRING) FROM "
      ++ text "`36889_janus_dev`.`check_generation`.`check_generation_results` "
      ++ text "WHERE result_id = :result_id LIMIT 2"

  -- `Defense`.
  unfoldable pub read_defense : Text → Result Text (List DefenseRow)
  unfolding execute text
  read_defense result_id = do rows ← execute defense_statement result_id; defense_rows rows

  -- `Check`.
  unfoldable pub read_check : Text → Result Text (List CheckRow)
  unfolding execute check_rows text
  read_check result_id = do rows ← execute check_statement result_id; check_rows rows

  -- `Volume`.
  unfoldable pub read_volume : Text → ℤ → Result Text Text
  unfolding drop_prefix byte_count truncate_error decimal text
  read_volume path expected = do
    require
        (has_prefix path (text "/Volumes/36889_janus_dev/check_generation/payloads/sha256/")
          && leb_int (pos 1) expected
          && leb_int expected (pos max_payload))
        (text "Volume path or size is outside the allowlist")
    response ←
        because (text "Databricks Files API request: ")
          (client.send (get (config.base_url ++ (text "/api/2.0/fs/files" ++ path)) config.token))
    require (eqb response.status 200) (
        text "Databricks Files API returned HTTP "
        ++ (decimal response.status ++ (text ": " ++ truncate_error response.body)))
    require (eqb_int (pos (byte_count response.body)) expected)
        (text "Files API payload size differs from manifest")
    ok response.body

  -- The source that the resolver reads.
  abbrev pub statement_source : Source
  statement_source = record { defense = read_defense; check = read_check; volume = read_volume }
