-- ===== src/Shared/Matched.antt =====
-- What `executeSharedCase` of api/shared_contract_v2.go reports as blocked and as not blocked.
use mathlib.Core.List.{Memᴰ}
use test_miti_check.Prelude.{
  arith, ◌≡◌, refl, sym, ◌∙◌, Bool, true, false, Option, none, some, List, [], ◌∷◌, All, inl, inr,
  Bool-cases,
}
use test_miti_check.Prelude.Text.{Text}
use test_miti_check.Prelude.Results.{Result, ok, err}
use test_miti_check.Upstream.Based.{err-ok}
use test_miti_check.Shared.Input.{HttpInput, RouteBinding}
use test_miti_check.Shared.Pointer.{Codec}
use test_miti_check.Shared.Waf.{
  PreparedRule, Alternative, PreparedWaf, Component, missed, unreadable, broke, hit, Judged,
  matched, unmatched, aborted, find_rule, alternative_applies, first_error, carrier_values,
  apply_transforms, tried, try_values, with_values, with_rule, component, after, judge, concluded,
  finish, evaluate_from,
}

pub refuted : {b : Bool} → b ≡ false → b ≡ true → ⊥
refuted h k = ground arith

module _ (codec : Codec) (waf : PreparedWaf) (request : HttpInput) (body : Text) where
  -- A rule of the component matches a value of its carrier after its transformations.
  pub record Hits (id : Text) : Type 0 where
    pub rule : PreparedRule
    pub values : List Text
    pub value : Text
    pub transformed : Text
    pub found : find_rule id waf.rules ≡ some rule
    pub carried : carrier_values codec rule request body ≡ ok values
    pub listed : Memᴰ value values
    pub changed : apply_transforms codec value rule.transformations ≡ ok transformed
    pub fires : rule.pattern transformed ≡ true

  -- Some alternative that applies to the route has every component matched.
  pub record Covers (route : RouteBinding) (alternatives : List Alternative) : Type 0 where
    pub alternative : Alternative
    pub listed : Memᴰ alternative alternatives
    pub applies : alternative_applies alternative.route route ≡ true
    pub complete : All Hits alternative.component_ids

  -- What matches in the values of a rule.
  record Fires (rule : PreparedRule) (values : List Text) : Type 0 where
    value : Text
    transformed : Text
    listed : Memᴰ value values
    changed : apply_transforms codec value rule.transformations ≡ ok transformed
    fires : rule.pattern transformed ≡ true

  tried-Fires :
      (rule : PreparedRule) (v : Text) (values : List Text) (answer : Result Text Text) (id : Text)
      → apply_transforms codec v rule.transformations ≡ answer
      → (try_values codec rule values ≡ hit id → Fires rule values)
      → tried codec rule answer (try_values codec rule values) ≡ hit id
      → Fires rule (v ∷ values)
  tried-Fires rule v values (err e) id a next h = ground arith
  tried-Fires rule v values (ok t) id a next h = elim (Bool-cases (rule.pattern t)) [
    | inl p ↦ record { value = v; transformed = t; listed = Memᴰ.head refl; changed = a; fires = p }
    | inr n ↦
        let rest = next (sym (rw n refl) ∙ h) in
        record {
          value = rest.value;
          transformed = rest.transformed;
          listed = Memᴰ.tail rest.listed;
          changed = rest.changed;
          fires = rest.fires;
        }
  ]

  try_values-Fires :
      (rule : PreparedRule) (values : List Text) (id : Text)
      → try_values codec rule values ≡ hit id
      → Fires rule values
  unfolding try_values
  try_values-Fires rule [] id h = ground arith
  try_values-Fires rule (v ∷ values) id h =
      tried-Fires rule v values (apply_transforms codec v rule.transformations) id refl
        (try_values-Fires rule values id) h

  with_values-Hits :
      (id : Text) (rule : PreparedRule) (values : Result Text (List Text)) (last : Text)
      → find_rule id waf.rules ≡ some rule
      → carrier_values codec rule request body ≡ values
      → with_values codec rule values ≡ hit last
      → Hits id
  with_values-Hits id rule (err e) last f c h = ground arith
  with_values-Hits id rule (ok values) last f c h =
      let fired = try_values-Fires rule values last h in
      record {
        rule = rule;
        values = values;
        value = fired.value;
        transformed = fired.transformed;
        found = f;
        carried = c;
        listed = fired.listed;
        changed = fired.changed;
        fires = fired.fires;
      }

  with_rule-Hits :
      (id : Text) (rule : Option PreparedRule) (last : Text)
      → find_rule id waf.rules ≡ rule
      → with_rule codec request body rule ≡ hit last
      → Hits id
  with_rule-Hits id none last f h = ground arith
  with_rule-Hits id (some rule) last f h =
      with_values-Hits id rule (carrier_values codec rule request body) last f refl h

  after-matched :
      (ids : List Text) (c : Component) (rule : Text)
      → after codec waf request body c (judge codec waf request body ids) ≡ matched rule
      → (id : Text) × (c ≡ hit id) × (judge codec waf request body ids id ≡ matched rule)
  after-matched ids missed rule h = ground arith
  after-matched ids (unreadable e) rule h = ground arith
  after-matched ids (broke e) rule h = ground arith
  after-matched ids (hit id) rule h = (id, refl, h)

  judge-All :
      (ids : List Text) (last rule : Text)
      → judge codec waf request body ids last ≡ matched rule
      → All Hits ids
  unfolding judge component
  judge-All [] last rule h = tt
  judge-All (id ∷ ids) last rule h =
      let (hit_id, c, rest) = after-matched ids (component codec waf request body id) rule h in
      (with_rule-Hits id (find_rule id waf.rules) hit_id refl c, judge-All ids hit_id rule rest)

  abbrev Judges : Alternative → Judged
  Judges a = judge codec waf request body a.component_ids []

  later :
      {route : RouteBinding} {a : Alternative} {alternatives : List Alternative}
      → Covers route alternatives
      → Covers route (a ∷ alternatives)
  later c = record {
    alternative = c.alternative;
    listed = Memᴰ.tail c.listed;
    applies = c.applies;
    complete = c.complete;
  }

  concluded-Covers :
      (route : RouteBinding) (a : Alternative) (alternatives : List Alternative) (j : Judged)
      (pending : Option Text) (rule : Text)
      → Judges a ≡ j
      → alternative_applies a.route route ≡ true
      → ((p : Option Text)
          → evaluate_from codec waf request body route alternatives p ≡ ok (some rule)
          → Covers route alternatives)
      → concluded codec waf request body j pending
          (λ p. evaluate_from codec waf request body route alternatives p)
        ≡ ok (some rule)
      → Covers route (a ∷ alternatives)
  concluded-Covers route a alternatives (matched id) pending rule j applies next h = record {
    alternative = a;
    listed = Memᴰ.head refl;
    applies = applies;
    complete = judge-All a.component_ids [] id j;
  }
  concluded-Covers route a alternatives (aborted e) pending rule j applies next h =
      absurd (err-ok h)
  concluded-Covers route a alternatives (unmatched none) pending rule j applies next h =
      later (next pending h)
  concluded-Covers route a alternatives (unmatched (some e)) pending rule j applies next h =
      later (next (first_error pending e) h)

  finish-none :
      (pending : Option Text) (rule : Text)
      → finish codec waf request body pending ≡ ok (some rule)
      → ⊥
  finish-none none rule h = ground arith
  finish-none (some e) rule h = absurd (err-ok h)

  pub evaluate_from-Covers :
      (route : RouteBinding) (alternatives : List Alternative) (pending : Option Text) (rule : Text)
      → evaluate_from codec waf request body route alternatives pending ≡ ok (some rule)
      → Covers route alternatives
  unfolding evaluate_from
  evaluate_from-Covers route [] pending rule h = absurd (finish-none pending rule h)
  evaluate_from-Covers route (a ∷ alternatives) pending rule h =
      elim (Bool-cases (alternative_applies a.route route)) [
        | inl e ↦
            concluded-Covers route a alternatives (Judges a) pending rule refl e
              (λ p. evaluate_from-Covers route alternatives p rule) (sym (rw e refl) ∙ h)
        | inr n ↦ later (evaluate_from-Covers route alternatives pending rule (sym (rw n refl) ∙ h))
      ]
