-- ===== src/Waf/Selected.antt =====
-- When a rule of api/executor.go matches a request: `evaluate`, by the values that `targetValues`
-- selects.
use test_miti_check.Prelude.{
  arith, ◌≡◌, subst, true, false, none, some, List, [], ◌∷◌, inl, inr, Bool-cases,
}
use test_miti_check.Prelude.Text.{Text}
use test_miti_check.Request.{TestRequest}
use test_miti_check.Waf.Target.{Url, target_values, url_decode}
use test_miti_check.Waf.Rule.{WafRule, stops, first_stopped, evaluate_rule}

-- A value as it stands in a list of selected ones, raw or decoded.
pub data Selects (url : Url) : List Text → Text → Type 0 where
  raw : (s : Text) (values : List Text) → Selects url (s ∷ values) s
  decoded : (s : Text) (values : List Text) → Selects url (s ∷ values) (url_decode url s)
  later : (s t : Text) (values : List Text) → Selects url values t → Selects url (s ∷ values) t

module _ (url : Url) (w : WafRule) where
  found_at :
      (values : List Text) {s t : Text}
      → s ≡ t
      → Selects url values s
      → stops w s ≡ true
      → Selects url values t × (stops w t ≡ true)
  found_at values q k e = subst (λ x. Selects url values x × (stops w x ≡ true)) q (k, e)

  some-Selects :
      (values : List Text) (t : Text)
      → first_stopped url w values ≡ some t
      → Selects url values t × (stops w t ≡ true)
  unfolding first_stopped
  some-Selects [] t h = ground arith
  some-Selects (s ∷ values) t h = elim (Bool-cases (stops w s)) [
    | inl e ↦ found_at (s ∷ values) (ground arith) (raw s values) e
    | inr n ↦ elim (Bool-cases (stops w (url_decode url s))) [
      | inl e ↦ found_at (s ∷ values) (ground arith) (decoded s values) e
      | inr m ↦ let (k, e) = some-Selects values t (ground arith) in (later s t values k, e)
    ]
  ]

  none-Selects :
      (values : List Text) (t : Text)
      → first_stopped url w values ≡ none
      → Selects url values t
      → stops w t ≡ false
  unfolding first_stopped
  none-Selects values t h (raw s vs) = ground arith
  none-Selects values t h (decoded s vs) = ground arith
  none-Selects values t h (later s u vs k) = none-Selects vs u (ground arith) k

  -- The value that a rule matches on is one that its targets select from the request, as it stands
  -- or decoded, is not empty, and is matched by the rule's pattern; and where the rule does not match,
  -- its pattern matches no selected value that is not empty, neither as it stands nor decoded.
  pub evaluate_rule-Selects :
      (r : TestRequest)
      → ((t : Text)
          → evaluate_rule url w r ≡ some t
          → Selects url (target_values url w.targets r) t × (stops w t ≡ true))
        × ((t : Text)
            → evaluate_rule url w r ≡ none
            → Selects url (target_values url w.targets r) t
            → stops w t ≡ false)
  unfolding evaluate_rule
  evaluate_rule-Selects r =
      (some-Selects (target_values url w.targets r), none-Selects (target_values url w.targets r))
