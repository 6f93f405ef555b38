-- ===== src/Worker/Logic.antt =====
-- Rules for what holds after a worker's actions, whether they go on or end the function.
use test_miti_check.Prelude.{Bool, true, false, Option, none, some, ◌≡◌, refl, if◌then◌else◌}
use test_miti_check.Worker.World.{World, M, continue_with, ◌>>=◌, pure, stop}

abbrev pub Ends : {A : Type 0} → (A → World → Type 0) → (World → Type 0) → Option A → World → Type 0
Ends Q R (some a) w = Q a w
Ends Q R none w = R w

-- From `P`, `m` ends in `Q` if it goes on, and in `R` if it returns.
pub record Triple {A : Type 0} (P : World → Type 0) (m : M A) (Q : A → World → Type 0)
    (R : World → Type 0) : Type 0 where
  pub at : (w : World) → P w → Ends Q R (m w).0 (m w).1

abbrev pub Keeps : {A : Type 0} → (World → Type 0) → M A → Type 0
Keeps I m = Triple I m (λ _. I) I

continue_with-Ends :
    {A B : Type 0} {R : World → Type 0} {Q : A → World → Type 0} {S : B → World → Type 0}
    (o : Option A) (f : A → M B) (w : World)
    → Ends Q R o w
    → ((a : A) → Triple (Q a) (f a) S R)
    → Ends S R (continue_with o f w).0 (continue_with o f w).1
continue_with-Ends none f w h k = h
continue_with-Ends (some a) f w h k = (k a).at w h

module _ {A B : Type 0} {P R : World → Type 0} {Q : A → World → Type 0}
    {S : B → World → Type 0} where
  pub Triple-bind :
      (m : M A) (f : A → M B)
      → Triple P m Q R
      → ((a : A) → Triple (Q a) (f a) S R)
      → Triple P (m >>= f) S R
  unfolding ◌>>=◌
  Triple-bind m f h k = record { at = λ w p. continue_with-Ends (m w).0 f (m w).1 (h.at w p) k }

module _ {A : Type 0} {P R : World → Type 0} {Q : A → World → Type 0} where
  pub Triple-pure : (a : A) → ((w : World) → P w → Q a w) → Triple P (pure a) Q R
  unfolding pure
  Triple-pure a h = record { at = h }

  pub Triple-stop : ((w : World) → P w → R w) → Triple P (stop {A = A}) Q R
  unfolding stop
  Triple-stop h = record { at = h }

  pub Triple-if :
      (b : Bool) (m n : M A)
      → (b ≡ true → Triple P m Q R)
      → (b ≡ false → Triple P n Q R)
      → Triple P (if b then m else n) Q R
  Triple-if true m n hm hn = hm refl
  Triple-if false m n hm hn = hn refl

ends : {A : Type 0} (I : World → Type 0) (o : Option A) (w : World) → Ends (λ _. I) I o w → I w
ends I none w h = h
ends I (some a) w h = h

-- An invariant holds after the action, however it ends.
pub keep : {A : Type 0} {I : World → Type 0} {m : M A} → Keeps I m → (w : World) → I w → I (m w).1
keep {I = inv} {m = m} k w h = ends inv (m w).0 (m w).1 (k.at w h)

-- The rules for an invariant, in which no argument is left open.
module _ {I : World → Type 0} {A : Type 0} where
  pub Keeps-pure : (a : A) → Keeps I (pure a)
  Keeps-pure a = Triple-pure a (λ w i. i)

  pub Keeps-stop : Keeps I (stop {A = A})
  Keeps-stop = Triple-stop (λ w i. i)

  pub Keeps-if : (b : Bool) (m n : M A) → Keeps I m → Keeps I n → Keeps I (if b then m else n)
  Keeps-if true m n hm hn = hm
  Keeps-if false m n hm hn = hn

pub Keeps-bind :
    {I : World → Type 0} {A B : Type 0} (m : M A) (f : A → M B)
    → Keeps I m
    → ((a : A) → Keeps I (f a))
    → Keeps I (m >>= f)
Keeps-bind m f hm hf = Triple-bind m f hm hf

pub ruleset keeps_rules = (Keeps-pure, Keeps-stop, Keeps-if, Keeps-bind)
