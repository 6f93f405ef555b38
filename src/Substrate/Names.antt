-- ===== src/Substrate/Names.antt =====
-- The names that api/substrate_aci.go gives to container groups.
use mathlib.Core.List.{reverse, reverse-cons, reverse-append, reverse-reverse}
use test_miti_check.Prelude.{
  arith, ◌≡◌, refl, sym, ap, subst, ◌∙◌, ℕ, zero, suc, ◌+◌, ◌≤◌, true, false, [], ◌∷◌, ◌++◌, inl,
  inr, All, All-append, ltb, eqb, length, Bool-cases,
}
use test_miti_check.Prelude.Text.{Text, text, is_empty, to_lower}
use test_miti_check.Substrate.{take}
use test_miti_check.Substrate.Azure.{
  is_label_char, label, drop_hyphens, trim_hyphens, or_default, cut_name, aci_name,
}

abbrev pub IsLabelChar : ℕ → Type 0
IsLabelChar c = is_label_char c ≡ true

abbrev IsHyphen : ℕ → Type 0
IsHyphen c = eqb c 45 ≡ true

-- No hyphen at the start.
abbrev pub StartsPlain : Text → Type 0
StartsPlain [] = Unit
StartsPlain (c ∷ s) = eqb c 45 ≡ false

label-IsLabelChar : (s : Text) → All IsLabelChar (label s)
unfolding label
label-IsLabelChar [] = tt
label-IsLabelChar (c ∷ s) = elim (Bool-cases (is_label_char c)) [
  | inl e ↦ rw e (e, label-IsLabelChar s)
  | inr n ↦ rw n (refl, label-IsLabelChar s)
]

-- What dropping the hyphens at the start leaves, and what it drops.
record Dropped (s : Text) : Type 0 where
  hyphens : Text
  only : All IsHyphen hyphens
  parts : s ≡ hyphens ++ drop_hyphens s
  plain : StartsPlain (drop_hyphens s)

dropped : (s : Text) → Dropped s
unfolding drop_hyphens
dropped [] = record { hyphens = []; only = tt; parts = refl; plain = tt }
dropped (c ∷ s) = elim (Bool-cases (eqb c 45)) [
  | inl e ↦
      let d = dropped s in
      let q : drop_hyphens (c ∷ s) ≡ drop_hyphens s = rw e refl in
      record {
        hyphens = c ∷ d.hyphens;
        only = (e, d.only);
        parts = ap (λ x. c ∷ x) d.parts ∙ ap (λ x. c ∷ (d.hyphens ++ x)) (sym q);
        plain = subst StartsPlain (sym q) d.plain;
      }
  | inr n ↦
      let q : drop_hyphens (c ∷ s) ≡ c ∷ s = rw n refl in
      record { hyphens = []; only = tt; parts = sym q; plain = subst StartsPlain (sym q) n }
]

module _ (P : ℕ → Type 0) where
  All-split : (s t : Text) → All P (s ++ t) → All P s × All P t
  All-split [] t h = (tt, h)
  All-split (c ∷ s) t (p, h) = let (a, b) = All-split s t h in ((p, a), b)

  All-reverse : (s : Text) → All P s → All P (reverse s)
  All-reverse [] h = tt
  All-reverse (c ∷ s) (p, h) =
      rw (reverse-cons c s) (All-append P (reverse s) (c ∷ []) (All-reverse s h) (p, tt))

  All-take : (n : ℕ) (s : Text) → All P s → All P (take n s)
  unfolding take
  All-take zero s h = tt
  All-take (suc n) [] h = tt
  All-take (suc n) (c ∷ s) (p, h) = (p, All-take n s h)

length-append : (s t : Text) → length (s ++ t) ≡ length s + length t
length-append [] t = omega arith
length-append (c ∷ s) t = let h = length-append s t in omega arith

length-take : (n : ℕ) (s : Text) → length (take n s) ≤ n
unfolding take
length-take zero s = omega arith
length-take (suc n) [] = omega arith
length-take (suc n) (c ∷ s) = let h = length-take n s in omega arith

StartsPlain-prefix : (s t : Text) → StartsPlain (s ++ t) → StartsPlain s
StartsPlain-prefix [] t h = tt
StartsPlain-prefix (c ∷ s) t h = h

-- What trimming leaves of a text.
record Trimmed (s : Text) : Type 0 where
  front : Text
  back : Text
  front_only : All IsHyphen front
  back_only : All IsHyphen back
  parts : s ≡ front ++ (trim_hyphens s ++ back)
  first : StartsPlain (trim_hyphens s)
  last : StartsPlain (reverse (trim_hyphens s))

trimmed : (s : Text) → Trimmed s
unfolding trim_hyphens
trimmed s =
    let d = dropped s in
    let u = drop_hyphens s in
    let e = dropped (reverse u) in
    let v = drop_hyphens (reverse u) in
    let whole : u ≡ reverse v ++ reverse (e.hyphens) =
      sym (reverse-reverse u) ∙ ap reverse e.parts ∙ reverse-append e.hyphens v in
    record {
      front = d.hyphens;
      back = reverse e.hyphens;
      front_only = d.only;
      back_only = All-reverse IsHyphen e.hyphens e.only;
      parts = d.parts ∙ ap (λ x. d.hyphens ++ x) whole;
      first = StartsPlain-prefix (reverse v) (reverse e.hyphens) (subst StartsPlain whole d.plain);
      last = subst StartsPlain (sym (reverse-reverse v)) e.plain;
    }

-- A label of DNS names.
pub record IsLabel (s : Text) : Type 0 where
  pub chars : All IsLabelChar s
  pub first : StartsPlain s
  pub last : StartsPlain (reverse s)
  pub given : is_empty s ≡ false
  pub short : length s ≤ 63

is_empty-≡ : (s : Text) → is_empty s ≡ true → s ≡ []
is_empty-≡ [] h = refl
is_empty-≡ (c ∷ s) h = ground arith

empty_of_hyphens : (s : Text) → All IsHyphen s → StartsPlain s → is_empty s ≡ true
empty_of_hyphens [] h p = refl
empty_of_hyphens (c ∷ s) (e, h) p = ground arith

trim_hyphens-All : (P : ℕ → Type 0) (s : Text) → All P s → All P (trim_hyphens s)
trim_hyphens-All P s h =
    let t = trimmed s in
    let (inner, b) = All-split P t.front (trim_hyphens s ++ t.back) (subst (All P) t.parts h) in
    (All-split P (trim_hyphens s) t.back b).0

trim_hyphens-length : (s : Text) → length (trim_hyphens s) ≤ length s
trim_hyphens-length s =
    let t = trimmed s in
    let whole = ap length t.parts in
    let a = length-append t.front (trim_hyphens s ++ t.back) in
    let b = length-append (trim_hyphens s) t.back in omega arith

trim_hyphens-given :
    (s : Text) → StartsPlain s → is_empty s ≡ false → is_empty (trim_hyphens s) ≡ false
trim_hyphens-given s p n = elim (Bool-cases (is_empty (trim_hyphens s))) [
  | inl e ↦
      let t = trimmed s in
      let whole : s ≡ t.front ++ t.back =
        t.parts ∙ ap (λ x. t.front ++ (x ++ t.back)) (is_empty-≡ (trim_hyphens s) e) in
      let only = All-append IsHyphen t.front t.back t.front_only t.back_only in
      let all = empty_of_hyphens s (subst (All IsHyphen) (sym whole) only) p in ground arith
  | inr m ↦ m
]

take-plain : (n : ℕ) (s : Text) → StartsPlain s → StartsPlain (take (suc n) s)
unfolding take
take-plain n [] h = tt
take-plain n (c ∷ s) h = h

take-given : (n : ℕ) (s : Text) → is_empty s ≡ false → is_empty (take (suc n) s) ≡ false
unfolding take
take-given n [] h = h
take-given n (c ∷ s) h = refl

not_over : (m n : ℕ) → ltb m n ≡ false → n ≤ m
not_over m n h = ground arith

cut_name-IsLabel :
    (name : Text)
    → All IsLabelChar name
    → StartsPlain name
    → StartsPlain (reverse name)
    → is_empty name ≡ false
    → IsLabel (cut_name name)
unfolding cut_name
cut_name-IsLabel name chars first last given =
    let t = trimmed (take 63 name) in
    let few = length-take 63 name in
    let fewer = trim_hyphens-length (take 63 name) in
    let all : length (trim_hyphens (take 63 name)) ≤ 63 = omega arith in
    elim (Bool-cases (ltb 63 (length name))) [
      | inl e ↦ rw e (record {
        chars = trim_hyphens-All IsLabelChar (take 63 name) (All-take IsLabelChar 63 name chars);
        first = t.first;
        last = t.last;
        given =
            trim_hyphens-given (take 63 name) (take-plain 62 name first) (take-given 62 name given);
        short = all;
      })
      | inr n ↦
          let small : length name ≤ 63 = not_over 63 (length name) n in
          rw n (record { chars = chars; first = first; last = last; given = given; short = small })
    ]

or_default-either :
    (Q : Text → Type 0) (s : Text)
    → Q (text "mc-run")
    → (is_empty s ≡ false → Q s)
    → Q (or_default s)
or_default-either Q [] base h = base
or_default-either Q (c ∷ s) base h = h refl

-- The name of a container group, whatever the run id, is a label of DNS names: lower-case letters,
-- digits and hyphens, between 1 and 63 of them, with no hyphen at either end.
pub aci_name-IsLabel : (run_id : Text) → IsLabel (aci_name run_id)
unfolding aci_name text
aci_name-IsLabel run_id =
    let s = label (to_lower run_id) in
    let t = trimmed s in
    let chars = trim_hyphens-All IsLabelChar s (label-IsLabelChar (to_lower run_id)) in
    let name = or_default (trim_hyphens s) in
    cut_name-IsLabel name
      (or_default-either (All IsLabelChar) (trim_hyphens s)
        (refl, (refl, (refl, (refl, (refl, (refl, tt)))))) (λ n. chars))
      (or_default-either StartsPlain (trim_hyphens s) refl (λ n. t.first))
      (or_default-either (λ x. StartsPlain (reverse x)) (trim_hyphens s) refl (λ n. t.last))
      (or_default-either (λ x. is_empty x ≡ false) (trim_hyphens s) refl (λ n. n))
