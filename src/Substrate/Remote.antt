-- ===== src/Substrate/Remote.antt =====
-- What a run that is handed to a GitHub workflow reports: api/substrate_github.go and
-- api/substrate_github_ghcr.go.
use mathlib.Core.List.{Memᴰ}
use test_miti_check.Prelude.{
  arith, ◌≡◌, refl, sym, ap, subst, ◌∙◌, ℕ, ◌<◌, ◌-◌, Bool, true, Option, none, some, List, [], ◌∷◌,
  ◌++◌, ◌||◌, ◌⊎◌, inl, inr, find, Bool-cases, Option-cases, if-both, some-injective,
}
use test_miti_check.Prelude.Text.{Text, text, text_eq, text_eq→≡, is_empty}
use test_miti_check.Prelude.Text.Numbers.{decimal}
use test_miti_check.Prelude.Results.{Result, ok, err}
use test_miti_check.Outcome.{RunOutcome, could_not_test}
use test_miti_check.Firewall.Verdict.{note, untestable}
use test_miti_check.Api.Submission.{SubmitRequest}
use test_miti_check.Substrate.Ghcr.{
  relay, relayed, granted, run_via_ghcr, notes, owner_of, image_of,
}
use test_miti_check.Substrate.Github.{
  Github, WorkflowRun, RunsPoll, ended, unlisted, listed, is_ours, find_run, wait_run, fetch_result,
  overlay, five_seconds, fetched, waited, located, dispatched, run_via_github,
}

-- A run that one of the polls lists.
pub data Lists (r : WorkflowRun) : List RunsPoll → Type 0 where
  here :
      (runs : List WorkflowRun) (polls : List RunsPoll)
      → Memᴰ r runs
      → Lists r (listed runs ∷ polls)
  later : (poll : RunsPoll) (polls : List RunsPoll) → Lists r polls → Lists r (poll ∷ polls)

-- A run of the name that was created after the time.
pub record IsOurs (name : Text) (after : ℕ) (r : WorkflowRun) : Type 0 where
  pub titled : (r.name ≡ name) ⊎ (r.display_title ≡ name)
  pub later : after < r.created_at

is_ours-IsOurs :
    (name : Text) (after : ℕ) (r : WorkflowRun) → is_ours name after r ≡ true → IsOurs name after r
is_ours-IsOurs name after r h = elim (Bool-cases (text_eq r.name name)) [
  | inl e ↦ record { titled = inl (text_eq→≡ r.name name e); later = ground arith }
  | inr n ↦ record {
    titled = inr (text_eq→≡ r.display_title name (ground arith));
    later = ground arith;
  }
]

-- What `findRun` finds.
pub record Finds (name : Text) (after : ℕ) (polls : List RunsPoll) (id : ℕ) : Type 0 where
  pub run : WorkflowRun
  pub given : Lists run polls
  pub ours : IsOurs name after run
  pub same : run.id ≡ id

find-Memᴰ :
    (p : WorkflowRun → Bool) (runs : List WorkflowRun) (r : WorkflowRun)
    → find p runs ≡ some r
    → Memᴰ r runs × (p r ≡ true)
find-Memᴰ p [] r h = ground arith
find-Memᴰ p (x ∷ runs) r h = elim (Bool-cases (p x)) [
  | inl e ↦
      let q : x ≡ r = some-injective (sym (rw e refl) ∙ h) in
      (Memᴰ.head (sym q), subst (λ y. p y ≡ true) q e)
  | inr n ↦ let (m, t) = find-Memᴰ p runs r (sym (rw n refl) ∙ h) in (Memᴰ.tail m, t)
]

skip :
    {name : Text} {after : ℕ} {polls : List RunsPoll} {id : ℕ} (poll : RunsPoll)
    → Finds name after polls id
    → Finds name after (poll ∷ polls) id
skip {polls = polls} poll f = record {
  run = f.run;
  given = later poll polls f.given;
  ours = f.ours;
  same = f.same;
}

ok-injective : {a b : ℕ} → ◌≡◌ {A = Result Text ℕ} (ok a) (ok b) → a ≡ b
ok-injective h = ground arith

find_run-Finds :
    (name : Text) (after : ℕ) (polls : List RunsPoll) (id : ℕ)
    → find_run name after polls ≡ ok id
    → Finds name after polls id
unfolding find_run
find_run-Finds name after [] id h = ground arith
find_run-Finds name after (ended e ∷ polls) id h = ground arith
find_run-Finds name after (unlisted ∷ polls) id h =
    skip unlisted (find_run-Finds name after polls id h)
find_run-Finds name after (listed runs ∷ polls) id h =
    elim (Option-cases (find (is_ours name after) runs)) [
      | inl n ↦
          skip (listed runs) (find_run-Finds name after polls id (sym (rw (n, find_run) refl) ∙ h))
      | inr (r, e) ↦
          let (m, t) = find-Memᴰ (is_ours name after) runs r e in
          let k : ◌≡◌ {A = Result Text ℕ} (ok (r.id)) (ok id) = sym (rw (e, find_run) refl) ∙ h in
          record {
            run = r;
            given = here runs polls m;
            ours = is_ours-IsOurs name after r t;
            same = ok-injective k;
          }
    ]

-- The outcome is this run's, and is a verdict only if it is the one that a workflow run of this run's
-- name, created later than five seconds before the dispatch, left behind.
pub record IsOurReport (g : Github) (out o : RunOutcome) : Type 0 where
  pub run : o.run_id ≡ out.run_id
  pub result : o.result_id ≡ out.result_id
  pub source :
      ((o.terminal_state ≡ could_not_test) × (o.is_match ≡ out.is_match))
      ⊎ ((id : ℕ) × (remote : RunOutcome) × Finds
            (text "mc-" ++ text out.run_id)
            (g.now - five_seconds)
            g.runs
            id
          × (fetch_result g id ≡ ok remote)
          × (o.terminal_state ≡ remote.terminal_state)
          × (o.is_match ≡ remote.is_match)
          × (o.actual ≡ remote.actual))

untestable-IsOurReport :
    (g : Github) (s : Text) (out o : RunOutcome)
    → o.run_id ≡ out.run_id
    → o.result_id ≡ out.result_id
    → o.is_match ≡ out.is_match
    → IsOurReport g out (untestable s o)
unfolding untestable
untestable-IsOurReport g s out o a b m = record { run = a; result = b; source = inl (refl, m) }

module _ (g : Github) (runner : Text) where
  fetched-IsOurReport :
      (id : ℕ) (conclusion : Text) (answer : Result Text RunOutcome) (out o : RunOutcome)
      → Finds (text "mc-" ++ text out.run_id) (g.now - five_seconds) g.runs id
      → fetch_result g id ≡ answer
      → o.run_id ≡ out.run_id
      → o.result_id ≡ out.result_id
      → o.is_match ≡ out.is_match
      → IsOurReport g out (fetched runner conclusion answer o)
  unfolding fetched overlay
  fetched-IsOurReport id conclusion (err e) out o f h a b m = untestable-IsOurReport g _ out o a b m
  fetched-IsOurReport id conclusion (ok remote) out o f h a b m = record {
    run = a;
    result = b;
    source = inr (id, remote, f, h, refl, refl, refl);
  }

  waited-IsOurReport :
      (id : ℕ) (answer : Result Text Text) (out o : RunOutcome)
      → Finds (text "mc-" ++ text out.run_id) (g.now - five_seconds) g.runs id
      → o.run_id ≡ out.run_id
      → o.result_id ≡ out.result_id
      → o.is_match ≡ out.is_match
      → IsOurReport g out (waited g runner id answer o)
  unfolding waited
  waited-IsOurReport id (err e) out o f a b m = untestable-IsOurReport g _ out o a b m
  waited-IsOurReport id (ok conclusion) out o f a b m =
      fetched-IsOurReport id conclusion (fetch_result g id) out
        (note (text "github run #" ++ decimal id ++ text " completed: " ++ conclusion) o) f refl a b
        m

  located-IsOurReport :
      (answer : Result Text ℕ) (out o : RunOutcome)
      → ((id : ℕ)
          → answer ≡ ok id
          → Finds (text "mc-" ++ text out.run_id) (g.now - five_seconds) g.runs id)
      → o.run_id ≡ out.run_id
      → o.result_id ≡ out.result_id
      → o.is_match ≡ out.is_match
      → IsOurReport g out (located g runner answer o)
  unfolding located
  located-IsOurReport (err e) out o f a b m = untestable-IsOurReport g _ out o a b m
  located-IsOurReport (ok id) out o f a b m =
      waited-IsOurReport id (wait_run g.context_error (g.statuses id)) out
        (note (text "github run #" ++ decimal id ++ text " started") o) (f id refl) a b m

  pub dispatched-IsOurReport :
      (step : Text) (answer : Option Text) (out o : RunOutcome)
      → o.run_id ≡ out.run_id
      → o.result_id ≡ out.result_id
      → o.is_match ≡ out.is_match
      → IsOurReport g out (dispatched g runner step answer o)
  unfolding dispatched
  dispatched-IsOurReport step (some e) out o a b m = untestable-IsOurReport g _ out o a b m
  dispatched-IsOurReport step none out o a b m =
      located-IsOurReport (find_run (text "mc-" ++ text o.run_id) (g.now - five_seconds) g.runs) out
        (note step o)
        (λ id h.
          find_run-Finds (text "mc-" ++ text out.run_id) (g.now - five_seconds) g.runs id
            (ap (λ x. find_run (text "mc-" ++ text x) (g.now - five_seconds) g.runs) (sym a) ∙ h))
        a b m

module _ (g : Github) (r : SubmitRequest) where
  relayed-IsOurReport :
      (copied : Text × List Text × Option Text) (out o : RunOutcome)
      → o.run_id ≡ out.run_id
      → o.result_id ≡ out.result_id
      → o.is_match ≡ out.is_match
      → IsOurReport g out (relayed g r copied o)
  unfolding relayed
  relayed-IsOurReport (target, steps, some e) out o a b m =
      untestable-IsOurReport g _ out (notes steps o) a b m
  relayed-IsOurReport (target, steps, none) out o a b m =
      dispatched-IsOurReport g (text "github-ghcr") _ _ out (notes steps o) a b m

  granted-IsOurReport :
      (answer : Option Text) (out : RunOutcome) → IsOurReport g out (granted g r answer out)
  unfolding granted
  granted-IsOurReport (some e) out = untestable-IsOurReport g _ out out refl refl refl
  granted-IsOurReport none out =
      relayed-IsOurReport (relay g (owner_of g.repo) (image_of r.substrate)) out
        (note (text "ensured GHCR_PAT repo secret for runner pull") out) refl refl refl

  -- A run that is handed to a GitHub workflow, with its image relayed or not, keeps its run id and
  -- result id, whatever GitHub and the registry answer. It is could-not-test and leaves the match as
  -- it was, or its verdict is the one in the result that a workflow run left behind which one of the
  -- polls listed, which bears this run's name, and which was created later than five seconds before
  -- the dispatch.
  pub run_via_github-IsOurReport :
      (out : RunOutcome)
      → IsOurReport g out (run_via_github g r out) × IsOurReport g out (run_via_ghcr g r out)
  unfolding run_via_github run_via_ghcr
  run_via_github-IsOurReport out = (
    if-both (IsOurReport g out) (is_empty g.repo || is_empty g.token) _ _
        (untestable-IsOurReport g _ out out refl refl refl)
        (dispatched-IsOurReport g (text "github") _ _ out out refl refl refl),
    if-both (IsOurReport g out) (is_empty g.repo || is_empty g.token) _ _
        (untestable-IsOurReport g _ out out refl refl refl)
        (granted-IsOurReport (g.ensure_secret g.token) out),
  )
