-- ===== src/Environment/Written.antt =====
-- src/ssh/environment.rs: answers as the probe writes them, and those that are cut off. The writer
-- here is no part of the program, which only reads answers.
use se_sshion.Base.{
  ◌≡◌, ◌≢◌, refl, ap, sym, ◌∙◌, false, Option, none, some, List, [], ◌∷◌, ◌++◌, map, ltb, ◌==◌,
  if◌then◌else◌, arith, subst,
}
use se_sshion.Base.Lists.{length-append, length, take, drop, any, All}
use se_sshion.Base.Text.{codes, text_eq, text_eq_iff, strip_prefix}
use se_sshion.Base.Text.Lines.{Lacks, any-Lacks}
use se_sshion.Base.Text.Utf8.{Bytes}
use se_sshion.Environment.{and_then}
use se_sshion.Environment.Records.{
  FieldId, id_hostname, id_hostname_proc, id_os, id_os_proc, id_distribution, id_kernel,
  id_kernel_proc, id_machine, id_uid, id_gid, id_status, id_shell, id_cpu, id_cpu_model1,
  id_cpu_model2, id_cpu_model3, id_cpu_model4, id_cpu_hypervisor, id_container_decl,
  id_container_marker, id_hypervisor_type, id_dmi_product, id_dmi_vendor, id_elf, field_ids,
  id_text, Reading, no_reading,
}
use se_sshion.Environment.Snapshot.{
  nul_value, next_record, named_record, apply_record, read_records, finish_snapshot, parse_snapshot,
}
use se_sshion.Environment.Cut.{
  KeptRecord, named_record-KeptRecord, take-append, drop-append, take_all, drop_all, drop-suc,
}

-- One record of the probe: what it asked for, what came back, and the exit status in digits.
pub record Answer : Type 0 where
  pub id : FieldId
  pub payload : Bytes
  pub status : Bytes

-- An ELF header has 64 bytes; everything else has no NUL in it.
abbrev pub IsPayload : FieldId → Bytes → Type 0
IsPayload id_elf payload = length payload ≡ 64
IsPayload id payload = Lacks 0 payload

pub record IsAnswer (a : Answer) : Type 0 where
  pub payload_is : IsPayload a.id a.payload
  pub status_lacks : Lacks 0 a.status

-- the name, the payload and the status, each with a NUL behind it
abbrev pub written_answer : Answer → Bytes → Bytes
written_answer a rest = id_text a.id ++ 0 ∷ (a.payload ++ 0 ∷ (a.status ++ 0 ∷ rest))

abbrev pub written : List Answer → Bytes → Bytes
written [] rest = rest
written (a ∷ answers) rest = written_answer a (written answers rest)

-- what the answers that succeeded give, in their order
abbrev pub given : List Answer → Reading → Reading
given [] r = r
given (a ∷ answers) r =
    given answers (if text_eq a.status (codes "0") then apply_record a.id a.payload r else r)

-- What stands behind the complete records: where a record is still to come, its written form cut
-- off anywhere before its last byte.
abbrev pub IsCut : List FieldId → Bytes → Type 0
IsCut [] cut = Unit
IsCut (id ∷ ids) cut =
    (payload : Bytes) × (status : Bytes) × (missing : Bytes) × IsAnswer
      (record { id = id; payload = payload; status = status })
    × (missing ≢ [])
    × (written_answer (record { id = id; payload = payload; status = status }) [] ≡ cut ++ missing)

id_text-named : (id : FieldId) → any (λ c. c == 0) (id_text id) ≡ false
id_text-named id_hostname = refl
id_text-named id_hostname_proc = refl
id_text-named id_os = refl
id_text-named id_os_proc = refl
id_text-named id_distribution = refl
id_text-named id_kernel = refl
id_text-named id_kernel_proc = refl
id_text-named id_machine = refl
id_text-named id_uid = refl
id_text-named id_gid = refl
id_text-named id_status = refl
id_text-named id_shell = refl
id_text-named id_cpu = refl
id_text-named id_cpu_model1 = refl
id_text-named id_cpu_model2 = refl
id_text-named id_cpu_model3 = refl
id_text-named id_cpu_model4 = refl
id_text-named id_cpu_hypervisor = refl
id_text-named id_container_decl = refl
id_text-named id_container_marker = refl
id_text-named id_hypervisor_type = refl
id_text-named id_dmi_product = refl
id_text-named id_dmi_vendor = refl
id_text-named id_elf = refl

nul_value-Lacks :
    (value rest : Bytes) → Lacks 0 value → nul_value (value ++ 0 ∷ rest) ≡ some (value, rest)
unfolding nul_value
nul_value-Lacks [] rest h = refl
nul_value-Lacks (b ∷ value) rest h = rw (h.0, nul_value-Lacks value rest h.1) refl

text_record-written :
    (payload status rest : Bytes)
    → Lacks 0 payload
    → Lacks 0 status
    → and_then {B = Bytes × Bytes × Bytes}
        (nul_value (payload ++ 0 ∷ (status ++ 0 ∷ rest)))
        (λ p. and_then (nul_value p.1) (λ q. some (p.0, q.0, q.1)))
      ≡ some (payload, status, rest)
text_record-written payload status rest h k =
    rw (nul_value-Lacks payload (status ++ 0 ∷ rest) h, nul_value-Lacks status rest k) refl

header_record-written :
    (payload status rest : Bytes)
    → length payload ≡ 64
    → Lacks 0 status
    → next_record id_elf (payload ++ 0 ∷ (status ++ 0 ∷ rest)) ≡ some (payload, status, rest)
unfolding next_record text_eq
header_record-written payload status rest h k =
    let more : Bytes = status ++ 0 ∷ rest in
    let long : ltb (length (payload ++ 0 ∷ more)) 65 ≡ false =
      ground (arith, length-append payload (0 ∷ more)) in
    let header : take 64 (payload ++ 0 ∷ more) ≡ payload =
      take-append 64 payload (0 ∷ more) (omega arith) ∙ take_all 64 payload h in
    let nul : drop 64 (payload ++ 0 ∷ more) ≡ 0 ∷ more =
      drop-append 64 payload (0 ∷ more) (omega arith)
      ∙ ap (λ t. t ++ 0 ∷ more) (drop_all 64 payload h) in
    let tail : drop 65 (payload ++ 0 ∷ more) ≡ more =
      drop-suc 64 (payload ++ 0 ∷ more) ∙ ap (drop 1) nul in
    rw (long, nul, tail, nul_value-Lacks status rest k, header) refl

next_record-written :
    (id : FieldId) (payload status rest : Bytes)
    → IsPayload id payload
    → Lacks 0 status
    → next_record id (payload ++ 0 ∷ (status ++ 0 ∷ rest)) ≡ some (payload, status, rest)
unfolding next_record
next_record-written id_elf payload status rest h k = header_record-written payload status rest h k
next_record-written id payload status rest h k = text_record-written payload status rest h k

named_record-written :
    (a : Answer) (rest : Bytes)
    → IsAnswer a
    → named_record a.id (written_answer a rest) ≡ some (a.payload, a.status, rest)
unfolding named_record
named_record-written a rest h =
    let name : nul_value (written_answer a rest)
        ≡ some (id_text a.id, a.payload ++ 0 ∷ (a.status ++ 0 ∷ rest)) =
      nul_value-Lacks (id_text a.id) _ (any-Lacks 0 (id_text a.id) (id_text-named a.id)) in
    rw (name, (text_eq_iff (id_text a.id) (id_text a.id)).1 refl)
      (next_record-written a.id a.payload a.status rest h.payload_is h.status_lacks)

append-ne-nil : (xs ys : Bytes) → ys ≢ [] → xs ++ ys ≢ []
append-ne-nil [] ys h = h
append-ne-nil (x ∷ xs) ys h = λ e. cc e

-- what a record leaves behind it
abbrev behind : Option (Bytes × Bytes × Bytes) → Bytes
behind none = []
behind (some p) = p.2

-- A record that is cut off is none: it would be read the same with its missing bytes, and then
-- leaves nothing behind it.
cut_none :
    (found : Option (Bytes × Bytes × Bytes)) (missing payload status : Bytes)
    → missing ≢ []
    → KeptRecord missing (some (payload, status, [])) found
    → found ≡ none
cut_none none missing payload status h k = refl
cut_none (some (p, s, rest)) missing payload status h k =
    absurd (append-ne-nil rest missing h (sym (ap behind k)))

named_record-IsCut :
    (id : FieldId) (ids : List FieldId) (cut : Bytes)
    → IsCut (id ∷ ids) cut
    → named_record id cut ≡ none
named_record-IsCut id ids cut (payload, status, missing, is, some_missing, e) =
    let a : Answer = record { id = id; payload = payload; status = status } in
    let whole : named_record id (cut ++ missing) ≡ some (payload, status, []) =
      ap (named_record id) (sym e) ∙ named_record-written a [] is in
    cut_none (named_record id cut) missing payload status some_missing (
      subst (λ o. KeptRecord missing o (named_record id cut)) whole
        (named_record-KeptRecord id cut missing))

read_records-IsCut :
    (later : List FieldId) (cut : Bytes) (r : Reading)
    → IsCut later cut
    → read_records later cut r ≡ r
unfolding read_records
read_records-IsCut [] cut r h = refl
read_records-IsCut (id ∷ ids) cut r h = rw (named_record-IsCut id ids cut h) refl

read_records-written :
    (answers : List Answer) (later : List FieldId) (cut : Bytes) (r : Reading)
    → All IsAnswer answers
    → IsCut later cut
    → read_records (map (λ a. a.id) answers ++ later) (written answers cut) r ≡ given answers r
unfolding read_records
read_records-written [] later cut r h k = read_records-IsCut later cut r k
read_records-written (a ∷ answers) later cut r h k =
    rw (named_record-written a (written answers cut) h.0)
      (read_records-written answers later cut _ h.1 k)

-- Behind its marker, an answer of complete records in the order of the ids, followed by the next
-- record cut off anywhere before its last byte, is read as the complete records: those with the
-- exit status 0 are applied, each once and in order, and what is left of the record that was cut
-- changes nothing. The same holds for an answer with all records, whatever is behind them. A
-- payload is one without NUL, or 64 bytes for the ELF header, and a status is one without NUL.
pub parse_snapshot-written :
    (answers : List Answer) (later : List FieldId) (cut : Bytes)
    → field_ids ≡ map (λ a. a.id) answers ++ later
    → All IsAnswer answers
    → IsCut later cut
    → parse_snapshot (codes "SE1" ++ 0 ∷ written answers cut)
      ≡ finish_snapshot (given answers no_reading)
unfolding parse_snapshot strip_prefix
parse_snapshot-written answers later cut order h k = ap finish_snapshot (
    ap (λ ids. read_records ids (written answers cut) no_reading) order
    ∙ read_records-written answers later cut no_reading h k)
