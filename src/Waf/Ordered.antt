-- ===== src/Waf/Ordered.antt =====
-- The values that a target selects do not depend on the order in which a map of api/executor.go is
-- iterated: `sort.Strings` on the names.
use mathlib.Core.List.{Permᴰ}
use test_miti_check.Prelude.{
  arith, ◌≡◌, refl, sym, ap, subst, ◌∙◌, true, false, List, [], ◌∷◌, inl, inr, Bool-cases, All,
}
use test_miti_check.Prelude.Text.{Text, text_eq, text_eq→≡, text_eq_self}
use test_miti_check.Waf.Target.{
  Url, text_leb, insert_text, sort_texts, names, lookup, header_values, request_arguments,
  values_for_one, target_values,
}
use test_miti_check.Waf.Rule.{WafRule, first_stopped, evaluate_rule}
use test_miti_check.Request.{TestRequest}

pub text_leb_antisym : (s t : Text) → text_leb s t ≡ true → text_leb t s ≡ true → s ≡ t
unfolding text_leb
text_leb_antisym [] [] h k = refl
text_leb_antisym [] (d ∷ t) h k = ground arith
text_leb_antisym (c ∷ s) [] h k = ground arith
text_leb_antisym (c ∷ s) (d ∷ t) h k = ground (arith, text_leb_antisym s t)

pub text_leb_total : (s t : Text) → text_leb s t ≡ false → text_leb t s ≡ true
unfolding text_leb
text_leb_total [] t h = ground arith
text_leb_total (c ∷ s) [] h = ground arith
text_leb_total (c ∷ s) (d ∷ t) h = ground (arith, text_leb_total s t)

pub text_leb_trans :
    (s t u : Text) → text_leb s t ≡ true → text_leb t u ≡ true → text_leb s u ≡ true
unfolding text_leb
text_leb_trans [] t u h k = refl
text_leb_trans (c ∷ s) [] u h k = ground arith
text_leb_trans (c ∷ s) (d ∷ t) [] h k = ground arith
text_leb_trans (c ∷ s) (d ∷ t) (e ∷ u) h k = ground (arith, text_leb_trans s t u)

insert_text-swap :
    (s t : Text) (us : List Text)
    → insert_text s (insert_text t us) ≡ insert_text t (insert_text s us)
unfolding insert_text
insert_text-swap s t [] = elim (Bool-cases (text_leb s t)) [
  | inl e ↦ elim (Bool-cases (text_leb t s)) [
    | inl f ↦ rw (text_leb_antisym s t e f) refl
    | inr n ↦ rw (e, n) refl
  ]
  | inr n ↦ rw (n, text_leb_total s t n) refl
]
insert_text-swap s t (u ∷ us) =
    let h = insert_text-swap s t us in
    let st = text_leb_trans s t u in
    let ts = text_leb_trans t s u in
    let total = text_leb_total s t in
    let total' = text_leb_total t s in
    let same = text_leb_antisym s t in ground (arith, st, ts, total, total', same)

sort_texts-Perm : {ss ts : List Text} → Permᴰ ss ts → sort_texts ss ≡ sort_texts ts
unfolding sort_texts
sort_texts-Perm Permᴰ.nil = refl
sort_texts-Perm (Permᴰ.cons {a} {b} e p) = let h = sort_texts-Perm p in rw (e, h) refl
sort_texts-Perm (Permᴰ.swap {a} {b} {l = l} e f) =
    rw (sym e, sym f) (insert_text-swap a b (sort_texts l))
sort_texts-Perm (Permᴰ.trans p q) = sort_texts-Perm p ∙ sort_texts-Perm q

module _ {ℓ} {A : Type ℓ} where
  abbrev Differs : Text × A → Text × A → Type 0
  Differs e f = text_eq (e.0) (f.0) ≡ false

  -- No two entries of a map have one name.
  unfoldable pub Distinct : List (Text × A) → Type 0
  Distinct [] = Unit
  Distinct (e ∷ entries) = All (Differs e) entries × Distinct entries

  names-Perm : {es fs : List (Text × A)} → Permᴰ es fs → Permᴰ (names es) (names fs)
  unfolding names
  names-Perm Permᴰ.nil = Permᴰ.nil
  names-Perm (Permᴰ.cons e p) = Permᴰ.cons (ap (λ x. x.0) e) (names-Perm p)
  names-Perm (Permᴰ.swap e f) = Permᴰ.swap (ap (λ x. x.0) e) (ap (λ x. x.0) f)
  names-Perm (Permᴰ.trans p q) = Permᴰ.trans (names-Perm p) (names-Perm q)

  Differs-sym : (e f : Text × A) → Differs e f → Differs f e
  Differs-sym e f n = elim (Bool-cases (text_eq (f.0) (e.0))) [
    | inl same ↦
        let back = text_eq→≡ (f.0) (e.0) same in
        let both = ap (text_eq (e.0)) back ∙ text_eq_self (e.0) in ground arith
    | inr m ↦ m
  ]

  All-Perm : (P : Text × A → Type 0) {es fs : List (Text × A)} → Permᴰ es fs → All P es → All P fs
  All-Perm P Permᴰ.nil h = tt
  All-Perm P (Permᴰ.cons e p) (x, h) = (subst P e x, All-Perm P p h)
  All-Perm P (Permᴰ.swap e f) (x, (y, h)) = (subst P f y, (subst P e x, h))
  All-Perm P (Permᴰ.trans p q) h = All-Perm P q (All-Perm P p h)

  Distinct-Perm : {es fs : List (Text × A)} → Permᴰ es fs → Distinct es → Distinct fs
  unfolding Distinct
  Distinct-Perm Permᴰ.nil h = tt
  Distinct-Perm (Permᴰ.cons {a = d} {l₂ = l} e p) (x, h) =
      (subst (λ f. All (Differs f) l) e (All-Perm (Differs d) p x), Distinct-Perm p h)
  Distinct-Perm (Permᴰ.swap {a = a} {b = b} {b' = b'} {l = l} e f) ((n, x), (y, h)) =
      let moved : Distinct (b ∷ a ∷ l) = ((Differs-sym a b n, y), (x, h)) in
      subst (λ c. Distinct (c ∷ b' ∷ l)) f (subst (λ c. Distinct (b ∷ c ∷ l)) e moved)
  Distinct-Perm (Permᴰ.trans p q) h = Distinct-Perm q (Distinct-Perm p h)

  lookup-Perm :
      (z : A) (n : Text) {es fs : List (Text × A)}
      → Permᴰ es fs
      → Distinct es
      → lookup z n es ≡ lookup z n fs
  unfolding Distinct lookup
  lookup-Perm z n Permᴰ.nil h = refl
  lookup-Perm z n (Permᴰ.cons e p) (x, h) = let k = lookup-Perm z n p h in rw (e, k) refl
  lookup-Perm z n (Permᴰ.swap {a = a} {b = b} e f) ((d, x), (y, h)) =
      rw (sym e, sym f)
        (elim (Bool-cases (text_eq (a.0) n)) [
          | inl p ↦ elim (Bool-cases (text_eq (b.0) n)) [
            | inl q ↦ let both = ap (text_eq (a.0)) (text_eq→≡ (b.0) n q) ∙ p in ground arith
            | inr m ↦ rw (p, m) refl
          ]
          | inr m ↦ rw m refl
        ])
  lookup-Perm z n (Permᴰ.trans p q) h = lookup-Perm z n p h ∙ lookup-Perm z n q (Distinct-Perm p h)

header_values-lookup :
    (es fs : List (Text × Text))
    → ((n : Text) → lookup [] n es ≡ lookup [] n fs)
    → (ns : List Text) → header_values es ns ≡ header_values fs ns
unfolding header_values
header_values-lookup es fs h [] = refl
header_values-lookup es fs h (n ∷ ns) =
    let first = h n in let rest = header_values-lookup es fs h ns in rw (first, rest) refl

header_values-Perm :
    {es fs : List (Text × Text)}
    → Permᴰ es fs
    → Distinct es
    → header_values es (sort_texts (names es)) ≡ header_values fs (sort_texts (names fs))
header_values-Perm {es} {fs} p d =
    ap (header_values es) (sort_texts-Perm (names-Perm p))
    ∙ header_values-lookup es fs (λ n. lookup-Perm [] n p d) (sort_texts (names fs))

module _ (url : Url) where
  values_for_one-Perm :
      (target : Text) (r : TestRequest) {fs : List (Text × Text)}
      → Permᴰ (r.headers) fs
      → Distinct (r.headers)
      → values_for_one url target r ≡ values_for_one url target (record r { headers = fs })
  unfolding values_for_one request_arguments
  values_for_one-Perm target r p d = let h = header_values-Perm p d in rw h refl

  target_values-Perm :
      (targets : List Text) (r : TestRequest) {fs : List (Text × Text)}
      → Permᴰ (r.headers) fs
      → Distinct (r.headers)
      → target_values url targets r ≡ target_values url targets (record r { headers = fs })
  unfolding target_values
  target_values-Perm [] r p d = refl
  target_values-Perm (t ∷ targets) r p d =
      let first = values_for_one-Perm t r p d in
      let rest = target_values-Perm targets r p d in rw (first, rest) refl

  -- What a rule matches on does not depend on the order in which the headers of a request are
  -- listed, when no two of them have one name.
  pub evaluate_rule-Perm :
      (w : WafRule) (r : TestRequest) (fs : List (Text × Text))
      → Permᴰ (r.headers) fs
      → Distinct (r.headers)
      → evaluate_rule url w r ≡ evaluate_rule url w (record r { headers = fs })
  unfolding evaluate_rule
  evaluate_rule-Perm w r fs p d = ap (first_stopped url w) (target_values-Perm w.targets r p d)
