-- ===== src/Callback/Metadata.antt =====
-- `callbackMetadataFromHeaders` and `callbackHostAllowed` of api/callback.go. `url.Parse` is a
-- parameter; it answers the parts of the URL that the code looks at.
use test_miti_check.Prelude.{
  arith, ◌≡◌, refl, subst, inl, inr, Bool-cases, Bool, true, false, Option, none, some, ◌&&◌, ◌||◌,
  not, if◌then◌else◌, any,
}
use test_miti_check.Prelude.Text.{Text, text, text_eq, is_empty, trim_space, equal_fold, split}

pub record CallbackMetadata : Type 0 where
  pub url : Text
  pub workflow_id : Text
  pub signal : Text

-- `url.URL`: `is_user` where it has user information, and `Hostname()`.
pub record Url : Type 0 where
  pub scheme : Text
  pub host : Text
  pub is_user : Bool
  pub fragment : Text
  pub hostname : Text

-- The codes of the `LifecycleError`s.
pub data CallbackError : Type 0 where
  invalid_callback_headers invalid_callback_url callback_host_not_allowed invalid_callback_signal :
      CallbackError

-- `accepted none` is a submission without a callback.
pub data Answer : Type 0 where
  accepted : Option CallbackMetadata → Answer
  refused : CallbackError → Answer

unfoldable pub callback_signal : Text
unfolding text
callback_signal = text "janus.capability-completion.v1"

unfoldable pub callback_host_allowed : Text → Text → Bool
unfolding trim_space split equal_fold
callback_host_allowed host configured =
    is_empty (trim_space configured)
    || any (λ candidate. equal_fold (trim_space candidate) host)
        (split b',' (trim_space configured))

-- The checks on a URL that parses, in their order.
unfoldable pub check_url : Url → Text → CallbackMetadata → Answer
unfolding callback_host_allowed text_eq text callback_signal
check_url u allowed m =
    if not (text_eq u.scheme (text "https")) || is_empty u.host || u.is_user
    then refused invalid_callback_url
    else if not (is_empty u.fragment)
    then refused invalid_callback_url
    else if not (callback_host_allowed u.hostname allowed)
    then refused callback_host_not_allowed
    else if not (text_eq m.signal callback_signal)
    then refused invalid_callback_signal
    else accepted (some m)

unfoldable pub check_parsed : Option Url → Text → CallbackMetadata → Answer
unfolding check_url
check_parsed none allowed m = refused invalid_callback_url
check_parsed (some u) allowed m = check_url u allowed m

abbrev pub all_empty : CallbackMetadata → Bool
all_empty m = is_empty m.url && is_empty m.workflow_id && is_empty m.signal

abbrev pub any_empty : CallbackMetadata → Bool
any_empty m = is_empty m.url || is_empty m.workflow_id || is_empty m.signal

abbrev pub trimmed : Text → Text → Text → CallbackMetadata
trimmed url workflow_id signal = record {
  url = trim_space url;
  workflow_id = trim_space workflow_id;
  signal = trim_space signal;
}

-- The three headers as given, and the configured hosts.
unfoldable pub metadata_from_headers : (Text → Option Url) → Text → Text → Text → Text → Answer
unfolding check_parsed trim_space
metadata_from_headers parse_url url workflow_id signal allowed =
    let m = trimmed url workflow_id signal in
    if all_empty m
    then accepted none
    else if any_empty m
    then refused invalid_callback_headers
    else check_parsed (parse_url m.url) allowed m

-- What an accepted callback is.
pub record IsSafe (parse_url : Text → Option Url) (allowed : Text) (m : CallbackMetadata)
    : Type 0 where
  pub parsed : Url
  pub reads : parse_url m.url ≡ some parsed
  pub secure : text_eq parsed.scheme (text "https") ≡ true
  pub anonymous : parsed.is_user ≡ false
  pub bare : is_empty parsed.fragment ≡ true
  pub listed : callback_host_allowed parsed.hostname allowed ≡ true
  pub signalled : text_eq m.signal callback_signal ≡ true
  pub complete : any_empty m ≡ false

check_url-accepted :
    (allowed : Text) (given m : CallbackMetadata) (u : Url)
    → check_url u allowed given ≡ accepted (some m)
    → (given ≡ m)
      × (text_eq u.scheme (text "https") ≡ true)
      × (u.is_user ≡ false)
      × (is_empty u.fragment ≡ true)
      × (callback_host_allowed u.hostname allowed ≡ true)
      × (text_eq given.signal callback_signal ≡ true)
unfolding check_url
check_url-accepted allowed given m u h = ground arith

check_parsed-IsSafe :
    (parse_url : Text → Option Url) (allowed : Text) (given m : CallbackMetadata) (u : Option Url)
    → parse_url given.url ≡ u
    → any_empty given ≡ false
    → check_parsed u allowed given ≡ accepted (some m)
    → IsSafe parse_url allowed m
unfolding check_parsed
check_parsed-IsSafe parse_url allowed given m none p c h = ground arith
check_parsed-IsSafe parse_url allowed given m (some u) p c h =
    let (same, secure, anonymous, bare, listed, signalled) =
      check_url-accepted allowed given m u h in
    subst (IsSafe parse_url allowed) same (record {
      parsed = u;
      reads = p;
      secure = secure;
      anonymous = anonymous;
      bare = bare;
      listed = listed;
      signalled = signalled;
      complete = c;
    })

-- A callback that a submission is accepted with has all three headers, an HTTPS URL without user
-- information or fragment whose host the configuration allows, and the one signal.
pub metadata_from_headers-IsSafe :
    (parse_url : Text → Option Url) (url workflow_id signal allowed : Text) (m : CallbackMetadata)
    → metadata_from_headers parse_url url workflow_id signal allowed ≡ accepted (some m)
    → IsSafe parse_url allowed m
unfolding metadata_from_headers
metadata_from_headers-IsSafe parse_url url workflow_id signal allowed m h =
    let given : CallbackMetadata = trimmed url workflow_id signal in
    elim (Bool-cases (any_empty given)) [
      | inl e ↦ ground arith
      | inr e ↦
          check_parsed-IsSafe parse_url allowed given m (parse_url given.url) refl e (ground arith)
    ]
