-- ===== src/Tests/PatchRuns.antt =====
-- Runs of src/patch.rs, on the inputs of its unit tests.
use se_sshion.Patch.Plan.{plan}
use se_sshion.Base.{none, some, List, [], ◌∷◌, ◌≡◌, refl, ok, err, true}
use se_sshion.Base.Text.{codes, Text}
use se_sshion.Patch.{PatchOperation, PatchHunk, duplicate_path, FilePatch}
use se_sshion.Patch.Parse.{parse_patch}
use se_sshion.Patch.Apply.{apply_hunks}

parses_duplicate :
    parse_patch
      (codes "*** Begin Patch\n*** Add File: /tmp/a\n+x\n*** Delete File: /tmp/a\n*** End Patch")
    ≡ err (duplicate_path (codes "/tmp/a"))
unfolding parse_patch
parses_duplicate = refl

abbrev pub two_hunks : List PatchHunk
two_hunks =
    record {
      anchor = some (codes "server");
      old_lines = codes "server" ∷ codes "port=80" ∷ [];
      new_lines = codes "server" ∷ codes "port=8080" ∷ [];
    }
    ∷ record {
      anchor = none;
      old_lines = codes "enabled=false" ∷ [];
      new_lines = codes "enabled=true" ∷ [];
    }
    ∷ []

abbrev pub update_text : Text
update_text =
    codes
      "*** Begin Patch\n*** Update File: /tmp/app.conf\n@@ server\n server\n-port=80\n+port=8080\n@@\n-enabled=false\n+enabled=true\n*** End Patch"

abbrev pub parsed : List FilePatch
parsed = record { path = codes "/tmp/app.conf"; operation = PatchOperation.update two_hunks } ∷ []

pub parses_update : parse_patch update_text ≡ ok parsed
unfolding parse_patch
parses_update = refl

abbrev pub config : Text
config = codes "server\nport=80\nenabled=false\n"

abbrev pub edited : Text
edited = codes "server\nport=8080\nenabled=true\n"

pub applies_two_hunks : apply_hunks config two_hunks ≡ ok edited
unfolding apply_hunks
applies_two_hunks = refl

abbrev pub enable : PatchHunk
enable = record {
  anchor = none;
  old_lines = codes "enabled=false" ∷ [];
  new_lines = codes "enabled=true" ∷ [];
}

abbrev pub twice : List Text
twice = codes "enabled=false" ∷ codes "enabled=false" ∷ []

pub plans_update :
    plan
      (record { path = codes "/tmp/app.conf"; operation = PatchOperation.update two_hunks })
      (some config)
    ≡ ok (record { path = codes "/tmp/app.conf"; new_content = some edited; changed = true })
unfolding plan
plans_update = refl
