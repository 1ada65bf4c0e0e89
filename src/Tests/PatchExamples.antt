-- ===== src/Tests/PatchExamples.antt =====
-- The properties of src/patch.rs at concrete patches.
use se_sshion.Base.{some, List, [], ◌∷◌, ◌≡◌, ◌↔◌, ok, ◌++◌, ℕ, ◌+◌, err, true}
use se_sshion.Base.Text.{Text, codes, ends_with}
use se_sshion.Patch.{PatchOperation, context_not_found, ambiguous_context}
use se_sshion.Patch.Parse.{parse_patch}
use se_sshion.Patch.Parse.Render.{IsPatch, render}
use se_sshion.Patch.Parse.FilePaths.{IsFilePath}
use se_sshion.Base.Lists.{All}
use se_sshion.Patch.Parse.Accepted.{parse_patch-IsPatch}
use se_sshion.Patch.Parse.RoundTrip.{parse_patch-render}
use se_sshion.Patch.Apply.{apply_hunk, apply_hunks, content_lines, render_lines}
use se_sshion.Patch.Apply.Matches.{Fits}
use se_sshion.Patch.Apply.Unique.{IsReplaced, apply_hunk-eq-ok, apply_hunk_errors, IsAmbiguous}
use se_sshion.Patch.Apply.Sequence.{
  Rewrites, text_of, apply_hunks-eq-ok, render_lines-content_lines,
}
use se_sshion.Patch.Plan.Change.{Describes, plan-Describes}
use se_sshion.Tests.PatchRuns.{
  update_text, two_hunks, config, edited, parses_update, parsed, enable, twice, plans_update,
}

parse_patch-IsPatch_example : IsPatch parsed × All (λ p. IsFilePath p.path) parsed
parse_patch-IsPatch_example = parse_patch-IsPatch update_text parses_update

parse_patch-render_example :
    (parse_patch (render parsed) ≡ ok parsed)
    × (parse_patch (render parsed ++ b'\n' ∷ []) ≡ ok parsed)
parse_patch-render_example =
    parse_patch-render parsed (parse_patch-IsPatch update_text parses_update).0

apply_hunk-eq-ok_example :
    (apply_hunk 0 enable (content_lines config) ≡ ok (content_lines edited))
    ↔ IsReplaced enable (content_lines config) (content_lines edited)
apply_hunk-eq-ok_example = apply_hunk-eq-ok 0 enable (content_lines config) (content_lines edited)

apply_hunk_errors_example :
    ((apply_hunk 0 enable twice ≡ err (context_not_found (0 + 1)))
      ↔ ((k : ℕ) → ¬ Fits enable twice k))
    × ((apply_hunk 0 enable twice ≡ err (ambiguous_context (0 + 1))) ↔ IsAmbiguous enable twice)
apply_hunk_errors_example = apply_hunk_errors 0 enable twice

apply_hunks-eq-ok_example : (apply_hunks config two_hunks ≡ ok edited) ↔ (
    (lines : List Text) × Rewrites two_hunks (content_lines config) lines
    × (edited ≡ text_of (ends_with b'\n' config) lines))
apply_hunks-eq-ok_example = apply_hunks-eq-ok config two_hunks edited

render_lines-content_lines_example :
    render_lines (ends_with b'\n' config) (content_lines config) ≡ config
render_lines-content_lines_example = render_lines-content_lines config

plan-Describes_example :
    Describes
      (codes "/tmp/app.conf")
      (some config)
      (record { path = codes "/tmp/app.conf"; new_content = some edited; changed = true })
plan-Describes_example =
    plan-Describes
      (record { path = codes "/tmp/app.conf"; operation = PatchOperation.update two_hunks })
      (some config) plans_update
