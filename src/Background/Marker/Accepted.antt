-- ===== src/Background/Marker/Accepted.antt =====
-- What accepted markers are.
use se_sshion.Base.{
  not, subst, ok_or, ◌==◌, ℕ, ◌+◌, ◌-◌, ◌*◌, ◌^◌, ◌<◌, Bool, true, false, Option, none, some, List,
  [], ◌∷◌, ◌≡◌, arith, leb, ltb, ◌&&◌, ok, OnOk, OnOk-bind, OnOk-bind_eq, OnOk-reject_if, OnOk-use,
  OnOk-if_some, inl, inr, Bool-cases,
}
use se_sshion.Base.Text.{Text, codes, split, strip_prefix, text_eq, text_eq_iff}
use se_sshion.Base.Text.Reading.{without_last_empty}
use se_sshion.Background.Marker.{
  BackgroundMarkers, Found, u32_digits, some_digits, parse_u32, job_id_line, pid_line, log_line,
  marker_line, marker_lines, check_found, is_some, trim_end_cr, MarkerFault, duplicate_pid,
  duplicate_job_id, duplicate_log, invalid_pid, missing_job_id, missing_pid, missing_log, zero_pid,
  unexpected_job_id, unexpected_log, parse_background_markers,
}

-- the number, if there is one, fits in 32 bits
abbrev Fits : Option ℕ → Type 0
Fits none = Unit
Fits (some n) = n < 2 ^ 32

abbrev is_next : ℕ → ℕ → Bool
is_next value c = leb b'0' c && (leb c b'9' && ltb (value * 10 + (c - b'0')) (2 ^ 32))

is_next-lt : (value c : ℕ) → is_next value c ≡ true → value * 10 + (c - b'0') < 2 ^ 32
is_next-lt value c h = ground arith

u32_digits-Fits : (value : ℕ) (digits : Text) → value < 2 ^ 32 → Fits (u32_digits value digits)
unfolding u32_digits
u32_digits-Fits value [] h = h
u32_digits-Fits value (c ∷ cs) h = elim (Bool-cases (is_next value c)) [
  | inl e ↦ rw e (u32_digits-Fits (value * 10 + (c - b'0')) cs (is_next-lt value c e))
  | inr e ↦ rw e tt
]

some_digits-Fits : (digits : Text) → Fits (some_digits digits)
unfolding some_digits
some_digits-Fits [] = tt
some_digits-Fits (c ∷ cs) = u32_digits-Fits 0 (c ∷ cs) (omega arith)

parse_u32-Fits : (s : Text) → Fits (parse_u32 s)
unfolding parse_u32
parse_u32-Fits [] = tt
parse_u32-Fits (c ∷ cs) = elim (Bool-cases (c == b'+')) [
  | inl e ↦ rw e (some_digits-Fits cs)
  | inr e ↦ rw e (some_digits-Fits (c ∷ cs))
]

ok_or-eq-ok : {A : Type 0} (o : Option A) (e : MarkerFault) {a : A} → ok_or o e ≡ ok a → o ≡ some a
ok_or-eq-ok none e h = cc
ok_or-eq-ok (some b) e h = cc

-- what the loop keeps of the values so far
abbrev PidFits : Found → Type 0
PidFits found = Fits found.pid

pid_line-Fits : (rest : Text) (found : Found) → OnOk PidFits (pid_line rest found)
unfolding pid_line
pid_line-Fits rest found = OnOk-reject_if PidFits (is_some found.pid) duplicate_pid _ (λ fresh.
    OnOk-bind_eq PidFits (ok_or (parse_u32 rest) (invalid_pid rest)) _
      (λ n e. subst Fits (ok_or-eq-ok (parse_u32 rest) (invalid_pid rest) e) (parse_u32-Fits rest)))

marker_line-Fits :
    (line : Text) (found : Found) → PidFits found → OnOk PidFits (marker_line line found)
unfolding marker_line job_id_line log_line
marker_line-Fits line found h =
    OnOk-if_some PidFits (strip_prefix (codes "__SSH_MCP_JOB_ID=") line) _ _
      (λ rest e. OnOk-reject_if PidFits (is_some found.job_id) duplicate_job_id _ (λ fresh. h))
      (λ no_job.
        OnOk-if_some PidFits (strip_prefix (codes "__SSH_MCP_PID=") line) _ _
          (λ rest e. pid_line-Fits rest found)
          (λ no_pid.
            OnOk-if_some PidFits (strip_prefix (codes "__SSH_MCP_LOG=") line) _ _
              (λ rest e.
                OnOk-reject_if PidFits (is_some found.log_path) duplicate_log _ (λ fresh. h))
              (λ no_log. h)))

marker_lines-Fits :
    (lines : List Text) (found : Found) → PidFits found → OnOk PidFits (marker_lines lines found)
unfolding marker_lines
marker_lines-Fits [] found h = h
marker_lines-Fits (line ∷ lines) found h =
    OnOk-bind PidFits PidFits (marker_line (trim_end_cr line) found) _
      (marker_line-Fits (trim_end_cr line) found h) (λ next k. marker_lines-Fits lines next k)

-- The markers name the expected job and log, and a process that can be.
pub record AreExpected (job_id log_path : Text) (markers : BackgroundMarkers) : Type 0 where
  pub job : markers.job_id ≡ job_id
  pub log : markers.remote_log_path ≡ log_path
  pub some_pid : 0 < markers.pid
  pub pid_fits : markers.pid < 2 ^ 32

not-eq-false : (b : Bool) → not b ≡ false → b ≡ true
not-eq-false b h = ground arith

check_found-AreExpected :
    (job_id log_path : Text) (found : Found)
    → Fits found.pid
    → OnOk (AreExpected job_id log_path) (check_found job_id log_path found)
unfolding check_found
check_found-AreExpected job_id log_path found fits =
    let Q : BackgroundMarkers → Type 0 = AreExpected job_id log_path in
    OnOk-bind_eq Q (ok_or found.job_id missing_job_id) _ (λ job e.
      OnOk-bind_eq Q (ok_or found.pid missing_pid) _ (λ pid has_pid.
        OnOk-bind_eq Q (ok_or found.log_path missing_log) _ (λ log e'.
          OnOk-reject_if Q (pid == 0) zero_pid _ (λ not_zero.
            OnOk-reject_if Q (not (text_eq job job_id)) (unexpected_job_id job job_id) _
              (λ same_job.
                OnOk-reject_if Q (not (text_eq log log_path)) (unexpected_log log log_path) _
                  (λ same_log. record {
                    job = (text_eq_iff job job_id).0 (not-eq-false _ same_job);
                    log = (text_eq_iff log log_path).0 (not-eq-false _ same_log);
                    some_pid = ground arith;
                    pid_fits = subst Fits (ok_or-eq-ok found.pid missing_pid has_pid) fits;
                  }))))))

-- The markers that are accepted name the job and the log that were expected, and a process id
-- that is not 0 and fits in 32 bits.
pub parse_background_markers-AreExpected :
    (stdout job_id log_path : Text) {markers : BackgroundMarkers}
    → parse_background_markers stdout job_id log_path ≡ ok markers
    → AreExpected job_id log_path markers
unfolding parse_background_markers
parse_background_markers-AreExpected stdout job_id log_path h =
    OnOk-use (AreExpected job_id log_path) _
      (OnOk-bind PidFits (AreExpected job_id log_path)
        (marker_lines (without_last_empty (split b'\n' stdout))
          (record { job_id = none; pid = none; log_path = none }))
        _ (marker_lines-Fits (without_last_empty (split b'\n' stdout)) _ tt)
        (λ found fits. check_found-AreExpected job_id log_path found fits))
      h
