-- ===== src/Tests/EnvironmentExamples.antt =====
-- Snapshots of a host at concrete answers.
use se_sshion.Base.{List, ◌≡◌, refl, none, some, true, [], ◌∷◌, ◌++◌}
use se_sshion.Base.Text.{Text, codes}
use se_sshion.Base.Text.Utf8.{Bytes}
use se_sshion.Environment.{scalar, decimal, effective_id, container_kind, vm_kind}
use se_sshion.Environment.Release.{release_value, distribution}
use se_sshion.Environment.Snapshot.{parse_snapshot}
use se_sshion.Environment.Checked.{Checked, parse_snapshot-Checked}
use se_sshion.Environment.Written.{Answer, IsAnswer, IsCut, written, given, parse_snapshot-written}
use se_sshion.Environment.Records.{id_hostname, id_hostname_proc, field_ids, no_reading}
use se_sshion.Environment.Snapshot.{finish_snapshot}
use se_sshion.Base.Lists.{drop, All}
use se_sshion.Base.Text.Lines.{any-Lacks}

abbrev record_of : Text → Text → Bytes
record_of id payload = id ++ 0 ∷ payload ++ 0 ∷ codes "0" ++ 0 ∷ []

abbrev answered : Bytes
answered =
    codes "SE1"
    ++ 0 ∷ record_of (codes "hostname") (codes " box\n")
    ++ record_of (codes "hostname_proc") (codes "other")

-- one more record, which the answer breaks off
abbrev broken : Bytes
broken = codes "os" ++ 0 ∷ codes "Linu"

snapshot_read :
    ((parse_snapshot (answered ++ broken)).hostname ≡ some (codes "box"))
    × ((parse_snapshot (answered ++ broken)).os ≡ none)
unfolding parse_snapshot
snapshot_read = (refl, refl)

parse_snapshot-Checked_example : Checked (parse_snapshot (answered ++ broken))
parse_snapshot-Checked_example = parse_snapshot-Checked (answered ++ broken)

abbrev host_answers : List Answer
host_answers =
    record { id = id_hostname; payload = codes " box\n"; status = codes "0" }
    ∷ record { id = id_hostname_proc; payload = codes "other"; status = codes "1" }
    ∷ []

host_answers-IsAnswer : All IsAnswer host_answers
host_answers-IsAnswer = (
  record { payload_is = any-Lacks 0 (codes " box\n") refl; status_lacks = (refl, tt) },
  (record { payload_is = any-Lacks 0 (codes "other") refl; status_lacks = (refl, tt) }, tt),
)

-- the answer to `uname -s`, without its last bytes
broken-IsCut : IsCut (drop 2 field_ids) broken
broken-IsCut = (
  codes "Linux",
  codes "0",
  codes "x" ++ 0 ∷ codes "0" ++ 0 ∷ [],
  record { payload_is = any-Lacks 0 (codes "Linux") refl; status_lacks = (refl, tt) },
  (λ e. cc e),
  refl,
)

parse_snapshot-written_example :
    parse_snapshot (codes "SE1" ++ 0 ∷ written host_answers broken)
    ≡ finish_snapshot (given host_answers no_reading)
parse_snapshot-written_example =
    parse_snapshot-written host_answers (drop 2 field_ids) broken refl host_answers-IsAnswer
      broken-IsCut

values_read :
    (scalar (codes "line\nfeed") 100 ≡ none)
    × (decimal (codes "18446744073709551615") ≡ some 18446744073709551615)
    × (decimal (codes "18446744073709551616") ≡ none)
    × (effective_id (codes "Name:\tsh\nUid:\t1 2 3 4\n") (codes "Uid:") ≡ some 2)
unfolding scalar decimal effective_id
values_read = (refl, refl, refl, refl)

releases_read :
    (release_value (codes "\"a \\$b\" # c") ≡ some (codes "a $b"))
    × (release_value (codes "\"$(x)\"") ≡ none)
    × (distribution (codes "NAME=Debian\nVERSION_ID='12'\nNAME=Devuan\n")
        ≡ some (codes "Devuan 12"))
unfolding release_value distribution
releases_read = (refl, refl, refl)

kinds_read :
    (container_kind (some (codes "oci")) (some (codes "podman")) ≡ some (codes "podman"))
    × (vm_kind none (some (codes "KVM")) (some (codes "QEMU")) true ≡ some (codes "kvm"))
    × (vm_kind none (some (codes "KVM")) (some (codes "VMware, Inc.")) true
        ≡ some (codes "unknown"))
unfolding container_kind vm_kind
kinds_read = (refl, refl, refl)
