-- ===== src/Reference/Secure.antt =====
-- What `locatorDatabricksConfigFromEnv` of api/executor_locator.go accepts.
use test_miti_check.Prelude.{
  arith, ◌≡◌, refl, subst, ◌⊎◌, inl, inr, ℕ, ◌<◌, Bool, Bool-cases, true, false, Option, none, some,
  ◌∷◌, [], ◌||◌, not,
}
use test_miti_check.Prelude.Text.{Text, text, text_eq, text_eq→≡, is_empty}
use test_miti_check.Prelude.Results.{Result, ok, err, require, ◌>>=◌, ◌>>◌, bind-ok, or_error-ok}
use test_miti_check.Prelude.Text.Numbers.{ℤ, pos, negsuc}
use test_miti_check.Upstream.Based.{ok-injective}
use test_miti_check.Reference.Config.{
  Config, ParsedUrl, Environment, Access, is_loopback, allowed_host, access, configured,
  with_scheme, timeout_of, trim_slashes, positive, variable, config_of, config_from_env,
}

-- The address that requests with the token go to has a host and is HTTPS, or HTTP to this machine; the
-- token and the warehouse are not empty, and the timeout is not zero.
pub record IsSecure (env : Environment) (c : Config) : Type 0 where
  pub address : Text
  pub url : ParsedUrl
  pub parsed : env.parse_url address ≡ some url
  pub base : c.base_url ≡ trim_slashes address
  pub hosted : is_empty url.hostname ≡ false
  pub private :
      (url.scheme ≡ text "https") ⊎ ((url.scheme ≡ text "http") × (is_loopback url.hostname ≡ true))
  pub tokened : is_empty c.token ≡ false
  pub warehoused : is_empty c.warehouse_id ≡ false
  pub timed : 0 < c.timeout

nonempty : (a b c : Bool) → not (a || b || c) ≡ true → (b ≡ false) × (c ≡ false)
nonempty a b c h = ground arith

allowed_host-private :
    (o : Option ParsedUrl)
    → allowed_host o ≡ true
    → (u : ParsedUrl) × (o ≡ some u)
      × (is_empty u.hostname ≡ false)
      × ((u.scheme ≡ text "https") ⊎ ((u.scheme ≡ text "http") × (is_loopback u.hostname ≡ true)))
allowed_host-private none h = ground arith
allowed_host-private (some u) h = (
  u,
  refl,
  ground arith,
  elim (Bool-cases (text_eq u.scheme (text "https"))) [
    | inl e ↦ inl (text_eq→≡ u.scheme (text "https") e)
    | inr n ↦ inr (text_eq→≡ u.scheme (text "http") (ground arith), ground arith)
  ],
)

positive-nonzero : (o : Option ℤ) (n : ℕ) → positive o ≡ some n → 0 < n
positive-nonzero none n h = ground arith
positive-nonzero (some (negsuc k)) n h = ground arith
positive-nonzero (some (pos ℕ.zero)) n h = ground arith
positive-nonzero (some (pos (ℕ.suc k))) n h = ground arith

module _ (env : Environment) (quote : Text → Text) where
  timeout_of-nonzero : (raw : Text) (n : ℕ) → timeout_of env quote raw ≡ ok n → 0 < n
  timeout_of-nonzero [] n h = ground arith
  timeout_of-nonzero (c ∷ s) n h =
      positive-nonzero (env.parse_duration (c ∷ s)) n
        (or_error-ok (positive (env.parse_duration (c ∷ s))) _ n h)

  two_guards_value-ok :
      (s t : Bool) (x y : Text) (r : Result Text ℕ) (f : ℕ → Config) (c : Config)
      → (require s x >> (require t y >> (r >>= (λ n. ok (f n))))) ≡ ok c
      → (s ≡ true) × (t ≡ true) × ((n : ℕ) × (r ≡ ok n) × (f n ≡ c))
  two_guards_value-ok false t x y r f c h = ground arith
  two_guards_value-ok true false x y r f c h = ground arith
  two_guards_value-ok true true x y (err e) f c h = ground arith
  two_guards_value-ok true true x y (ok n) f c h = (refl, refl, (n, refl, ok-injective h))

  configured-IsSecure : (a : Access) (c : Config) → configured env quote a ≡ ok c → IsSecure env c
  configured-IsSecure a c h =
      let (given, allowed, (n, timed, same)) =
        two_guards_value-ok (not (is_empty a.host || is_empty a.token || is_empty a.warehouse_id))
          (allowed_host (env.parse_url (with_scheme env quote a.host))) _ _
          (timeout_of env quote (variable env quote (text "DATABRICKS_TIMEOUT")))
          (config_of env quote a) c h in
      let (tokened, warehoused) = nonempty (is_empty a.host) (is_empty a.token) _ given in
      let (u, parsed, hosted, scheme) =
        allowed_host-private (env.parse_url (with_scheme env quote a.host)) allowed in
      subst (IsSecure env) same (record {
        address = with_scheme env quote a.host;
        url = u;
        parsed = parsed;
        base = refl;
        hosted = hosted;
        private = scheme;
        tokened = tokened;
        warehoused = warehoused;
        timed = timeout_of-nonzero _ n timed;
      })

  -- A configuration that is accepted sends the token to a parsed address that has a host and is HTTPS,
  -- or HTTP on this machine, and it has a token, a warehouse and a timeout.
  pub config_from_env-IsSecure : (c : Config) → config_from_env env quote ≡ ok c → IsSecure env c
  unfolding config_from_env
  config_from_env-IsSecure c h =
      let (a, given, h1) = bind-ok (access env quote) (configured env quote) c h in
      configured-IsSecure a c h1
