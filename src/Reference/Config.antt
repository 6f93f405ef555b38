-- ===== src/Reference/Config.antt =====
-- `statementLocatorRowSource` of api/executor_locator.go and its configuration. The environment,
-- `url.Parse`, `time.ParseDuration`, `strconv.ParseInt`, the HTTP client and the decoding of an answer
-- are parameters.
use mathlib.Core.List.{reverse}
use test_miti_check.Prelude.{
  ℕ, Bool, false, Option, none, some, [], ◌∷◌, ◌++◌, ◌&&◌, ◌||◌, not, eqb, if◌then◌else◌,
}
use test_miti_check.Prelude.Text.{
  Text, text, text_eq, is_empty, trim_space, drop_prefix, cut_text, contains,
}
use test_miti_check.Prelude.Text.Numbers.{ℤ, pos}
use test_miti_check.Prelude.Results.{Result, ok, err, or_error, require, ◌>>=◌, ◌>>◌}

-- `locatorDatabricksConfig`, with the timeout in microseconds.
pub record Config : Type 0 where
  pub base_url : Text
  pub token : Text
  pub warehouse_id : Text
  pub timeout : ℕ

-- `url.URL`; `user` is the password, and empty without one, where user information is present.
pub record ParsedUrl : Type 0 where
  pub scheme : Text
  pub user : Option Text
  pub hostname : Text
  pub path : Text

pub record Environment : Type 0 where
  pub get : Text → Text
  pub parse_url : Text → Option ParsedUrl
  pub parse_duration : Text → Option ℤ

unfoldable pub drop_slashes : Text → Text
drop_slashes [] = []
drop_slashes (c ∷ s) = let rest = drop_slashes s in if eqb c b'/' then rest else c ∷ s

-- `strings.TrimRight(s, "/")`.
unfoldable pub trim_slashes : Text → Text
unfolding drop_slashes
trim_slashes s = reverse (drop_slashes (reverse s))

abbrev pub or_given : Text → Text → Text
or_given s d = if is_empty s then d else s

-- The warehouse that the path of a DSN names.
abbrev pub warehouse_of : Option Text → Text
warehouse_of none = []
warehouse_of (some rest) = trim_slashes (drop_slashes rest)

-- Host, token and warehouse.
pub record Access : Type 0 where
  pub host : Text
  pub token : Text
  pub warehouse_id : Text

abbrev pub with_user : Access → ParsedUrl → Option Text → Result Text Access
with_user a u none = err (text "DATABRICKS_DSN is invalid")
with_user a u (some password) =
    if is_empty u.hostname
    then err (text "DATABRICKS_DSN is invalid")
    else ok (record {
      host = or_given a.host u.hostname;
      token = or_given a.token password;
      warehouse_id =
          or_given a.warehouse_id (warehouse_of (drop_prefix (text "/sql/1.0/warehouses/") u.path));
    })

abbrev pub from_url : Access → Option ParsedUrl → Result Text Access
from_url a none = err (text "DATABRICKS_DSN is invalid")
from_url a (some u) = with_user a u u.user

-- `isLoopbackLocatorHost`.
unfoldable pub is_loopback : Text → Bool
unfolding text_eq text
is_loopback host =
    text_eq host (text "127.0.0.1") || text_eq host (text "::1") || text_eq host (text "localhost")

abbrev pub allowed_host : Option ParsedUrl → Bool
allowed_host none = false
allowed_host (some u) =
    not (is_empty u.hostname)
    && (text_eq u.scheme (text "https")
        || (text_eq u.scheme (text "http") && is_loopback u.hostname))

abbrev pub positive : Option ℤ → Option ℕ
positive (some (pos (ℕ.suc n))) = some (ℕ.suc n)
positive _ = none

module _ (env : Environment) (quote : Text → Text) where
  unfoldable pub variable : Text → Text
  unfolding trim_space
  variable name = trim_space (env.get name)

  abbrev pub access : Result Text Access
  access =
      let given : Access = record {
        host = variable (text "DATABRICKS_HOST");
        token = variable (text "DATABRICKS_TOKEN");
        warehouse_id = variable (text "DATABRICKS_WAREHOUSE_ID");
      } in
      if is_empty (variable (text "DATABRICKS_DSN"))
      then ok given
      else from_url given (env.parse_url (text "databricks://" ++ variable (text "DATABRICKS_DSN")))

  abbrev pub timeout_of : Text → Result Text ℕ
  timeout_of raw =
      if is_empty raw
      then ok 30_000_000
      else or_error (positive (env.parse_duration raw))
          (text "parse DATABRICKS_TIMEOUT: " ++ quote raw)

  abbrev pub with_scheme : Text → Text
  with_scheme host = if contains host (text "://") then host else text "https://" ++ host

  abbrev pub config_of : Access → ℕ → Config
  config_of a timeout = record {
    base_url = trim_slashes (with_scheme a.host);
    token = a.token;
    warehouse_id = a.warehouse_id;
    timeout = timeout;
  }

  abbrev pub configured : Access → Result Text Config
  configured a = do
    require (not (is_empty a.host || is_empty a.token || is_empty a.warehouse_id))
        (text "Databricks host, token, and warehouse ID are required for reference-only execution")
    require (allowed_host (env.parse_url (with_scheme a.host)))
        (text "DATABRICKS_HOST must use https except for loopback test hosts")
    timeout ← timeout_of (variable (text "DATABRICKS_TIMEOUT"))
    ok (config_of a timeout)

  -- `locatorDatabricksConfigFromEnv`.
  unfoldable pub config_from_env : Result Text Config
  unfolding variable trim_slashes is_loopback text_eq drop_prefix cut_text text
  config_from_env = do a ← access; configured a
