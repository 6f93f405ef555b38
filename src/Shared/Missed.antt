-- ===== src/Shared/Missed.antt =====
-- What `executeSharedCase` of api/shared_contract_v2.go has ruled out of a case that it lets pass.
use mathlib.Core.List.{Memᴰ}
use test_miti_check.Prelude.{
  arith, ◌≡◌, refl, sym, ap, subst, ◌∙◌, true, false, Option, none, some, List, [], ◌∷◌, All, inl,
  inr, Bool-cases,
}
use test_miti_check.Prelude.Text.{Text}
use test_miti_check.Prelude.Results.{Result, ok, err}
use test_miti_check.Upstream.Based.{ok-injective, err-ok}
use test_miti_check.Shared.Input.{HttpInput, RouteBinding}
use test_miti_check.Shared.Pointer.{Codec}
use test_miti_check.Shared.Matched.{refuted, Hits, Covers}
use test_miti_check.Shared.Waf.{
  PreparedRule, Alternative, PreparedWaf, Component, missed, unreadable, broke, hit, Judged,
  matched, unmatched, aborted, alternative_applies, first_error, apply_transforms, tried,
  try_values, with_values, with_rule, component, after, judge, concluded, evaluate_from,
}

module _ (codec : Codec) (waf : PreparedWaf) (request : HttpInput) (body : Text) where
  abbrev Completes : Text → Type 0
  Completes = Hits codec waf request body

  -- A value that fires is not passed over.
  tried-missed :
      (rule : PreparedRule) (answer : Result Text Text) (rest : Component)
      → tried codec rule answer rest ≡ missed
      → (t : Text) × (answer ≡ ok t) × (rule.pattern t ≡ false) × (rest ≡ missed)
  tried-missed rule (err e) rest h = ground arith
  tried-missed rule (ok t) rest h = elim (Bool-cases (rule.pattern t)) [
    | inl p ↦ ground arith
    | inr n ↦ (t, refl, n, sym (rw n refl) ∙ h)
  ]

  try_values-missed :
      (rule : PreparedRule) (values : List Text) (v t : Text)
      → try_values codec rule values ≡ missed
      → Memᴰ v values
      → apply_transforms codec v rule.transformations ≡ ok t
      → rule.pattern t ≡ true
      → ⊥
  unfolding try_values
  try_values-missed rule [] v t h m a p = elim m [ ]
  try_values-missed rule (x ∷ values) v t h (Memᴰ.head e) a p =
      let (u, b, n, rest) =
        tried-missed rule (apply_transforms codec x rule.transformations)
          (try_values codec rule values) h in
      let same : t ≡ u =
        ok-injective (sym a ∙ ap (λ y. apply_transforms codec y rule.transformations) e ∙ b) in
      refuted n (sym (ap rule.pattern same) ∙ p)
  try_values-missed rule (x ∷ values) v t h (Memᴰ.tail m) a p =
      let (u, b, n, rest) =
        tried-missed rule (apply_transforms codec x rule.transformations)
          (try_values codec rule values) h in
      try_values-missed rule values v t rest m a p

  tried-readable :
      (rule : PreparedRule) (answer : Result Text Text) (rest : Component) (e : Text)
      → (rest ≡ unreadable e → ⊥)
      → tried codec rule answer rest ≡ unreadable e
      → ⊥
  tried-readable rule (err d) rest e next h = ground arith
  tried-readable rule (ok t) rest e next h = elim (Bool-cases (rule.pattern t)) [
    | inl p ↦ ground arith
    | inr n ↦ next (sym (rw n refl) ∙ h)
  ]

  try_values-readable :
      (rule : PreparedRule) (values : List Text) (e : Text)
      → try_values codec rule values ≡ unreadable e
      → ⊥
  unfolding try_values
  try_values-readable rule [] e h = ground arith
  try_values-readable rule (v ∷ values) e h =
      tried-readable rule (apply_transforms codec v rule.transformations)
        (try_values codec rule values) e (try_values-readable rule values e) h

  -- The component of a rule that is found and whose values are read.
  component-Hits :
      (id : Text) (h : Completes id)
      → component codec waf request body id ≡ try_values codec h.rule h.values
  unfolding component
  component-Hits id h =
      ap (with_rule codec request body) h.found ∙ ap (with_values codec h.rule) h.carried

  Hits-missed : (id : Text) → component codec waf request body id ≡ missed → Completes id → ⊥
  Hits-missed id c h =
      try_values-missed h.rule h.values h.value h.transformed (sym (component-Hits id h) ∙ c)
        h.listed h.changed h.fires

  Hits-readable :
      (id e : Text) → component codec waf request body id ≡ unreadable e → Completes id → ⊥
  Hits-readable id e c h = try_values-readable h.rule h.values e (sym (component-Hits id h) ∙ c)

  after-unmatched :
      (id : Text) (ids : List Text) (c : Component) (o : Option Text)
      → component codec waf request body id ≡ c
      → after codec waf request body c (judge codec waf request body ids) ≡ unmatched o
      → All Completes (id ∷ ids)
      → ((last : Text)
          → judge codec waf request body ids last ≡ unmatched o
          → All Completes ids
          → ⊥)
      → ⊥
  after-unmatched id ids missed o c h (hits, rest) next = Hits-missed id c hits
  after-unmatched id ids (unreadable e) o c h (hits, rest) next = Hits-readable id e c hits
  after-unmatched id ids (broke e) o c h (hits, rest) next = ground arith
  after-unmatched id ids (hit last) o c h (hits, rest) next = next last h rest

  -- An alternative that is not matched has a component that is not matched.
  judge-unmatched :
      (ids : List Text) (last : Text) (o : Option Text)
      → judge codec waf request body ids last ≡ unmatched o
      → All Completes ids
      → ⊥
  unfolding judge
  judge-unmatched [] last o h a = ground arith
  judge-unmatched (id ∷ ids) last o h a =
      after-unmatched id ids (component codec waf request body id) o refl h a
        (λ l. judge-unmatched ids l o)

  concluded-none :
      (route : RouteBinding) (a : Alternative) (alternatives : List Alternative) (j : Judged)
      (pending : Option Text)
      → judge codec waf request body a.component_ids [] ≡ j
      → concluded codec waf request body j pending
          (λ p. evaluate_from codec waf request body route alternatives p)
        ≡ ok none
      → (All Completes a.component_ids → ⊥)
        × ((p : Option Text) × (evaluate_from codec waf request body route alternatives p
              ≡ ok none))
  concluded-none route a alternatives (matched id) pending j h = ground arith
  concluded-none route a alternatives (aborted e) pending j h = absurd (err-ok h)
  concluded-none route a alternatives (unmatched none) pending j h =
      (judge-unmatched a.component_ids [] none j, (pending, h))
  concluded-none route a alternatives (unmatched (some e)) pending j h =
      (judge-unmatched a.component_ids [] (some e) j, (first_error pending e, h))

  -- With no verdict and no error, no alternative that applies has all its components matched.
  pub evaluate_from-uncovered :
      (route : RouteBinding) (alternatives : List Alternative) (pending : Option Text)
      → evaluate_from codec waf request body route alternatives pending ≡ ok none
      → (b : Alternative) → Memᴰ b alternatives
      → alternative_applies b.route route ≡ true
      → All Completes b.component_ids
      → ⊥
  unfolding evaluate_from
  evaluate_from-uncovered route [] pending h b m applies complete = elim m [ ]
  evaluate_from-uncovered route (a ∷ alternatives) pending h b (Memᴰ.head e) applies complete =
      let here = ap (λ x. alternative_applies x.route route) (sym e) ∙ applies in
      let (fails, rest) =
        concluded-none route a alternatives (judge codec waf request body a.component_ids [])
          pending refl (sym (rw here refl) ∙ h) in
      fails (subst (λ x. All Completes x.component_ids) e complete)
  evaluate_from-uncovered route (a ∷ alternatives) pending h b (Memᴰ.tail m) applies complete =
      elim (Bool-cases (alternative_applies a.route route)) [
        | inl e ↦
            let (fails, (p, rest)) =
              concluded-none route a alternatives (judge codec waf request body a.component_ids [])
                pending refl (sym (rw e refl) ∙ h) in
            evaluate_from-uncovered route alternatives p rest b m applies complete
        | inr n ↦
            evaluate_from-uncovered route alternatives pending (sym (rw n refl) ∙ h) b m applies
              complete
      ]

  pub Covers-refuted :
      (route : RouteBinding) (alternatives : List Alternative) (pending : Option Text)
      → evaluate_from codec waf request body route alternatives pending ≡ ok none
      → Covers codec waf request body route alternatives
      → ⊥
  Covers-refuted route alternatives pending h c =
      evaluate_from-uncovered route alternatives pending h c.alternative c.listed c.applies
        c.complete
