-- ===== src/Ledger/Outbox.antt =====
-- The statements of api/lifecycle_store.go on the callback columns: `ClaimNextCallback` to
-- `CallbackConfigurationFailed`.
use test_miti_check.Prelude.{
  ℕ, ◌+◌, String, Bool, none, some, ◌&&◌, ◌||◌, ◌==◌, is_text, is_due, is_some, is_none,
}
use test_miti_check.Ledger.Row.{
  Row, delivering, retry, delivered, configuration_failed, is_terminal, is_deliverable,
  is_delivering,
}
use test_miti_check.Ledger.Statement.{Statement}

-- The WHERE clause by which `ClaimNextCallback` chooses a row.
abbrev pub claimable : ℕ → Row → Bool
claimable now r =
    is_terminal r.status
    && is_some r.callback.url
    && is_deliverable r.callback.state
    && is_due r.callback.next_at now
    && (is_none r.callback.lease_expires_at || is_due r.callback.lease_expires_at now)

-- `callback_state='delivering' AND callback_lease_token=$2`.
abbrev pub delivers : String → String → Row → Bool
delivers id token r =
    r.run_id == id && is_delivering r.callback.state && is_text r.callback.lease_token token

module _ (now : ℕ) where
  -- The SELECT and the UPDATE are one transaction on a locked row.
  unfoldable pub claim_update : String → String → ℕ → Statement
  claim_update id token lease = record {
    guard = λ r. r.run_id == id;
    assign = λ r. record r {
      callback = record (r.callback) {
        state = some delivering;
        lease_token = some token;
        lease_expires_at = some (now + lease);
      };
    };
  }

  unfoldable pub succeeded_update : String → String → Statement
  succeeded_update id token = record {
    guard = delivers id token;
    assign = λ r. record r {
      callback = record (r.callback) {
        state = some delivered;
        delivered_at = some now;
        attempt = r.callback.attempt + 1;
        last_error = none;
        lease_token = none;
        lease_expires_at = none;
      };
    };
  }

  unfoldable pub failed_update : String → String → ℕ → String → Statement
  failed_update id token delay reason = record {
    guard = delivers id token;
    assign = λ r. record r {
      callback = record (r.callback) {
        state = some retry;
        attempt = r.callback.attempt + 1;
        next_at = some (now + delay);
        last_error = some reason;
        lease_token = none;
        lease_expires_at = none;
      };
    };
  }

  unfoldable pub configuration_failed_update : String → String → String → Statement
  configuration_failed_update id token reason = record {
    guard = delivers id token;
    assign = λ r. record r {
      callback = record (r.callback) {
        state = some configuration_failed;
        attempt = r.callback.attempt + 1;
        configuration_failed_at = some now;
        last_error = some reason;
        lease_token = none;
        lease_expires_at = none;
      };
    };
  }
