-- ===== src/Waf/Accepted.antt =====
-- Which target expressions `parseTargets` of api/executor.go accepts.
use test_miti_check.Prelude.{
  arith, ◌≡◌, refl, sym, ap, subst, ◌∙◌, ℕ, ◌≤◌, true, false, none, some, List, [], ◌∷◌, ◌++◌, inl,
  inr, ◌||◌, ltb, length, All, Bool-cases, Option-cases, if◌then◌else◌,
}
use test_miti_check.Prelude.Text.{Text, text, text_eq, text_eq→≡, is_empty, drop_prefix, split}
use test_miti_check.Prelude.Results.{ok, err}
use test_miti_check.Waf.Target.{
  args_prefix, supported_target, refused, first_refused, parse_targets, too_many, unsupported,
}

-- The targets that the in-memory WAF can select.
pub data IsTarget (t : Text) : Type 0 where
  whole_body : t ≡ text "REQUEST_BODY" → IsTarget t
  whole_path : t ≡ text "REQUEST_URI" → IsTarget t
  all_headers : t ≡ text "REQUEST_HEADERS" → IsTarget t
  all_arguments : t ≡ text "ARGS" → IsTarget t
  argument_names : t ≡ text "ARGS_NAMES" → IsTarget t
  argument : (c : ℕ) (s : Text) → t ≡ args_prefix ++ (c ∷ s) → IsTarget t

drop_prefix-≡ : (p s r : Text) → drop_prefix p s ≡ some r → s ≡ p ++ r
unfolding drop_prefix
drop_prefix-≡ [] s r h = ground arith
drop_prefix-≡ (d ∷ p) [] r h = ground arith
drop_prefix-≡ (d ∷ p) (c ∷ s) r h = ground (arith, drop_prefix-≡ p s r)

whole-IsTarget :
    (t : Text)
    → text_eq t (text "REQUEST_BODY")
        || text_eq t (text "REQUEST_URI")
        || text_eq t (text "REQUEST_HEADERS")
        || text_eq t (text "ARGS")
        || text_eq t (text "ARGS_NAMES")
      ≡ true
    → IsTarget t
whole-IsTarget t h = elim (Bool-cases (text_eq t (text "REQUEST_BODY"))) [
  | inl e ↦ whole_body (text_eq→≡ t _ e)
  | inr n1 ↦ elim (Bool-cases (text_eq t (text "REQUEST_URI"))) [
    | inl e ↦ whole_path (text_eq→≡ t _ e)
    | inr n2 ↦ elim (Bool-cases (text_eq t (text "REQUEST_HEADERS"))) [
      | inl e ↦ all_headers (text_eq→≡ t _ e)
      | inr n3 ↦ elim (Bool-cases (text_eq t (text "ARGS"))) [
        | inl e ↦ all_arguments (text_eq→≡ t _ e)
        | inr n4 ↦ argument_names (text_eq→≡ t _ (ground arith))
      ]
    ]
  ]
]

named-IsTarget :
    (t name : Text) → drop_prefix args_prefix t ≡ some name → is_empty name ≡ false → IsTarget t
named-IsTarget t [] d h = ground arith
named-IsTarget t (c ∷ s) d h = argument c s (drop_prefix-≡ args_prefix t (c ∷ s) d)

supported_target-IsTarget : (t : Text) → supported_target t ≡ true → IsTarget t
unfolding supported_target
supported_target-IsTarget t h = elim (Option-cases (drop_prefix args_prefix t)) [
  | inl n ↦ whole-IsTarget t (sym (rw n refl) ∙ h)
  | inr (name, d) ↦ named-IsTarget t name d (ground arith)
]

accepted_at : (t : Text) {name : Text} → t ≡ name → refused name ≡ false → refused t ≡ false
accepted_at t e h = subst (λ n. refused n ≡ false) (sym e) h

IsTarget-refused : (t : Text) → IsTarget t → refused t ≡ false
unfolding supported_target drop_prefix text_eq text
IsTarget-refused t (whole_body e) = accepted_at t e refl
IsTarget-refused t (whole_path e) = accepted_at t e refl
IsTarget-refused t (all_headers e) = accepted_at t e refl
IsTarget-refused t (all_arguments e) = accepted_at t e refl
IsTarget-refused t (argument_names e) = accepted_at t e refl
IsTarget-refused t (argument c s e) = accepted_at t e refl

refused-IsTarget : (t : Text) → refused t ≡ false → IsTarget t
refused-IsTarget t h = supported_target-IsTarget t (ground arith)

first_refused-none : (ts : List Text) → first_refused ts ≡ none → All IsTarget ts
unfolding first_refused
first_refused-none [] h = tt
first_refused-none (t ∷ ts) h = elim (Bool-cases (refused t)) [
  | inl e ↦ ground arith
  | inr n ↦ (refused-IsTarget t n, first_refused-none ts (ground arith))
]

All-first_refused : (ts : List Text) → All IsTarget ts → first_refused ts ≡ none
unfolding first_refused
All-first_refused [] h = refl
All-first_refused (t ∷ ts) (k, h) =
    let r = IsTarget-refused t k in let l = All-first_refused ts h in rw (r, l) refl

-- The part of `parseTargets` after the split.
checked_parts :
    (parts ts : List Text)
    → (if ltb 16 (length parts)
        then err too_many
        else elim (first_refused parts) [ some t ↦ err (unsupported t) | none ↦ ok parts ])
      ≡ ok ts
    → (ts ≡ parts) × (length parts ≤ 16) × (first_refused parts ≡ none)
checked_parts parts ts h = elim (Option-cases (first_refused parts)) [
  | inl n ↦ ground arith
  | inr (t, r) ↦ ground arith
]

-- A target expression parses to a list of targets exactly when the list is its parts between the
-- bars, there are at most 16 of them, and each is one of the five names or `ARGS:` with a name that is
-- not empty.
pub parse_targets-ok :
    (e : Text) (ts : List Text)
    → (parse_targets e ≡ ok ts → (ts ≡ split b'|' e) × (length ts ≤ 16) × All IsTarget ts)
      × ((ts ≡ split b'|' e) × (length ts ≤ 16) × All IsTarget ts → parse_targets e ≡ ok ts)
unfolding parse_targets
parse_targets-ok e ts =
    let parts = split b'|' e in
    (
      λ h.
          let (same, few, none_refused) = checked_parts parts ts h in
          (same, rw same few, rw same (first_refused-none parts none_refused)),
      λ (same, few, known).
          let fine = All-first_refused ts known in
          let small : ltb 16 (length ts) ≡ false = ground arith in
          rw (sym same, small, fine) (ap ok (sym same)),
    )
