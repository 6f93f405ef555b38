-- ===== src/Substrate/Ghcr.antt =====
-- `runViaGitHubGHCR`, `relayImageToGHCR`, `ghcrTarget` and `overrideImage` of
-- api/substrate_github_ghcr.go. The repository's secret and the copy between registries are
-- answers of the `Github` of the run.
use test_miti_check.Prelude.{
  Bool, true, false, Option, none, some, List, [], ◌∷◌, ◌++◌, ◌||◌, if◌then◌else◌,
}
use test_miti_check.Prelude.Text.{
  Text, text, is_empty, to_lower, trim_space, first_non_empty, cut, cut_last,
}
use test_miti_check.Outcome.{RunOutcome}
use test_miti_check.Request.{Raw, missing, garbled, value}
use test_miti_check.Firewall.Verdict.{note, untestable}
use test_miti_check.Api.Submission.{SubmitRequest, SubstrateDocument}
use test_miti_check.Substrate.{trim_error}
use test_miti_check.Substrate.Github.{Github, locally, workflow_step, dispatched}

-- `ghcrTarget`: the tag is what follows the last colon, unless a slash follows it.
abbrev pub has_slash : Text → Bool
has_slash s = elim (cut b'/' s) [ none ↦ false | some r ↦ true ]

unfoldable pub split_tag : Text → Text × Text
unfolding cut cut_last text
split_tag image = elim (cut_last b':' image) [
  | none ↦ (image, text "latest")
  | some (ref, tag) ↦ if has_slash tag then (image, text "latest") else (ref, tag)
]

unfoldable pub base_name : Text → Text
unfolding cut_last
base_name ref = elim (cut_last b'/' ref) [ none ↦ ref | some (path, name) ↦ name ]

unfoldable pub ghcr_target : Text → Text → Text
unfolding split_tag base_name to_lower text
ghcr_target owner image =
    text "ghcr.io/"
    ++ to_lower owner
    ++ text "/"
    ++ base_name ((split_tag image).0)
    ++ text ":"
    ++ (split_tag image).1

-- `overrideImage`: a document that is absent or garbled is replaced.
unfoldable pub override_image : Raw SubstrateDocument → Text → Raw SubstrateDocument
override_image (value d) image = value (record d { image = image })
override_image missing image = value (record { kind = []; image = image })
override_image garbled image = value (record { kind = []; image = image })

abbrev pub image_of : Raw SubstrateDocument → Text
image_of (value d) = d.image
image_of missing = []
image_of garbled = []

-- `relayImageToGHCR`: the target, and the error if there is one.
unfoldable pub relay : Github → Text → Text → Text × List Text × Option Text
unfolding ghcr_target trim_space text
relay g owner image =
    let target = ghcr_target owner image in
    let copied = g.copy image target in
    if is_empty (trim_space image)
    then ([], [], some (text "no substrate image to relay"))
    else elim (copied.1) [
      | some e ↦ (
        target,
        copied.0,
        some (text "copy " ++ image ++ text " -> " ++ target ++ text ": " ++ e),
      )
      | none ↦ (
        target,
        copied.0
            ++ (text "relay: copied " ++ image ++ text " -> " ++ target ++ text " (daemonless)")
              ∷ [],
        none,
      )
    ]

abbrev pub notes : List Text → RunOutcome → RunOutcome
notes steps out = record out { steps = out.steps ++ steps }

abbrev pub owner_of : Text → Text
owner_of repo = elim (cut b'/' repo) [ none ↦ repo | some (owner, name) ↦ owner ]

unfoldable pub relayed :
    Github → SubmitRequest → Text × List Text × Option Text → RunOutcome → RunOutcome
unfolding untestable dispatched trim_error override_image text
relayed g r (target, steps, some e) out =
    untestable (text "image relay to GHCR failed: " ++ trim_error e) (notes steps out)
relayed g r (target, steps, none) out =
    let workflow = first_non_empty g.ghcr_workflow (text "mitigation-check-ghcr.yml") in
    let ref = first_non_empty g.ref (text "main") in
    let remote = record (locally r) { substrate = override_image r.substrate target } in
    dispatched g (text "github-ghcr") (workflow_step workflow g.repo ref)
      (g.dispatch g.repo workflow ref remote) (notes steps out)

-- From the answer to setting the secret on.
unfoldable pub granted : Github → SubmitRequest → Option Text → RunOutcome → RunOutcome
unfolding untestable relayed relay cut text
granted g r (some e) out = untestable (text "could not set GHCR_PAT repo secret: " ++ e) out
granted g r none out =
    relayed g r (relay g (owner_of g.repo) (image_of r.substrate))
      (note (text "ensured GHCR_PAT repo secret for runner pull") out)

-- `runViaGitHubGHCR`.
unfoldable pub run_via_ghcr : Github → SubmitRequest → RunOutcome → RunOutcome
unfolding untestable granted text
run_via_ghcr g r out =
    if is_empty g.repo || is_empty g.token
    then untestable (text "github actions not configured (set GITHUB_REPO, GITHUB_TOKEN)") out
    else granted g r (g.ensure_secret g.token) out
