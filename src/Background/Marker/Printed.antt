-- ===== src/Background/Marker/Printed.antt =====
-- The markers that the wrapper prints are read back.
use se_sshion.Base.{
  append-nil, ℕ, ◌^◌, ◌<◌, Bool, true, false, none, some, [], ◌∷◌, ◌++◌, ◌≡◌, refl, sym, ap, ◌∙◌,
  arith, ◌&&◌, ◌==◌, ok, if◌then◌else◌,
}
use se_sshion.Base.Lists.{All, is_nil}
use se_sshion.Base.Decimal.{decimal, IsDigit, decimal-IsDigit}
use se_sshion.Base.Text.{Text, codes, split, text_eq_iff}
use se_sshion.Base.Text.Lines.{Lacks, any-Lacks, split-append}
use se_sshion.Background.Marker.Digits.{parse_u32-decimal}
use se_sshion.Base.Text.Reading.{without_last_empty}
use se_sshion.Background.Marker.{
  Found, marker_lines, check_found, parse_background_markers, trim_end_cr,
}

kept_char :
    (nil : Bool) (c : ℕ) (rest : Text)
    → (c == b'\r') ≡ false
    → (if nil && c == b'\r' then [] else c ∷ rest) ≡ c ∷ rest
kept_char true c rest h = rw h refl
kept_char false c rest h = refl

trim_end_cr-append : (a s : Text) → Lacks b'\r' a → trim_end_cr (a ++ s) ≡ a ++ trim_end_cr s
unfolding trim_end_cr
trim_end_cr-append [] s h = refl
trim_end_cr-append (c ∷ a) s h =
    rw (trim_end_cr-append a s h.1)
      (kept_char (is_nil (a ++ trim_end_cr s)) c (a ++ trim_end_cr s) h.0)

-- a line of the printed markers, and what follows
abbrev pub line : Text → Text → Text → Text
line name value rest = (name ++ value) ++ (b'\n' ∷ rest)

-- what the wrapper prints
abbrev pub printed : Text → ℕ → Text → Text
printed job_id pid log_path =
    line (codes "__SSH_MCP_JOB_ID=") job_id
      (line (codes "__SSH_MCP_PID=") (decimal pid) (line (codes "__SSH_MCP_LOG=") log_path []))

-- A value can be printed: it has no line break, and no carriage return at its end.
abbrev pub IsPrintable : Text → Type 0
IsPrintable value = Lacks b'\n' value × (trim_end_cr value ≡ value)

Lacks-append : (sep : ℕ) (a b : Text) → Lacks sep a → Lacks sep b → Lacks sep (a ++ b)
Lacks-append sep [] b h k = k
Lacks-append sep (c ∷ a) b h k = (h.0, Lacks-append sep a b h.1 k)

digits-Lacks : (sep : ℕ) (digits : Text) → sep < b'0' → All IsDigit digits → Lacks sep digits
digits-Lacks sep [] low h = tt
digits-Lacks sep (c ∷ cs) low h = (ground arith, digits-Lacks sep cs low h.1)

trim_end_cr-nil : trim_end_cr [] ≡ []
trim_end_cr-nil = unfold trim_end_cr in refl

Lacks-trim : (s : Text) → Lacks b'\r' s → trim_end_cr s ≡ s
Lacks-trim s h =
    ap trim_end_cr (sym (append-nil s))
    ∙ trim_end_cr-append s [] h
    ∙ ap (λ t. s ++ t) trim_end_cr-nil
    ∙ append-nil s

decimal-IsPrintable : (n : ℕ) → IsPrintable (decimal n)
decimal-IsPrintable n = (
  digits-Lacks b'\n' (decimal n) (omega arith) (decimal-IsDigit n),
  Lacks-trim (decimal n) (digits-Lacks b'\r' (decimal n) (omega arith) (decimal-IsDigit n)),
)

-- a name that holds neither character
abbrev IsName : Text → Type 0
IsName name = Lacks b'\n' name × Lacks b'\r' name

split-line :
    (name value rest : Text)
    → IsName name
    → IsPrintable value
    → split b'\n' (line name value rest) ≡ (name ++ value) ∷ split b'\n' rest
split-line name value rest n v =
    split-append b'\n' (name ++ value) rest (Lacks-append b'\n' name value n.0 v.0)

trim-line :
    (name value : Text)
    → IsName name
    → IsPrintable value
    → trim_end_cr (name ++ value) ≡ name ++ value
trim-line name value n v = trim_end_cr-append name value n.1 ∙ ap (λ t. name ++ t) v.1

job_id-IsName : IsName (codes "__SSH_MCP_JOB_ID=")
job_id-IsName = (
  any-Lacks b'\n' (codes "__SSH_MCP_JOB_ID=") refl,
  any-Lacks b'\r' (codes "__SSH_MCP_JOB_ID=") refl,
)

pid-IsName : IsName (codes "__SSH_MCP_PID=")
pid-IsName =
    (any-Lacks b'\n' (codes "__SSH_MCP_PID=") refl, any-Lacks b'\r' (codes "__SSH_MCP_PID=") refl)

log-IsName : IsName (codes "__SSH_MCP_LOG=")
log-IsName =
    (any-Lacks b'\n' (codes "__SSH_MCP_LOG=") refl, any-Lacks b'\r' (codes "__SSH_MCP_LOG=") refl)

last_lines : (a b c : Text) → without_last_empty (a ∷ b ∷ c ∷ split b'\n' []) ≡ a ∷ b ∷ c ∷ []
unfolding without_last_empty split
last_lines a b c = refl

lines-printed :
    (job_id : Text) (pid : ℕ) (log_path : Text)
    → IsPrintable job_id
    → IsPrintable log_path
    → without_last_empty (split b'\n' (printed job_id pid log_path))
      ≡ (codes "__SSH_MCP_JOB_ID=" ++ job_id)
        ∷ (codes "__SSH_MCP_PID=" ++ decimal pid)
        ∷ (codes "__SSH_MCP_LOG=" ++ log_path)
        ∷ []
lines-printed job_id pid log_path j l =
    ap without_last_empty (
      split-line (codes "__SSH_MCP_JOB_ID=") job_id _ job_id-IsName j
      ∙ ap (◌∷◌ (codes "__SSH_MCP_JOB_ID=" ++ job_id)) (
          split-line (codes "__SSH_MCP_PID=") (decimal pid) _ pid-IsName (decimal-IsPrintable pid)
          ∙ ap (◌∷◌ (codes "__SSH_MCP_PID=" ++ decimal pid))
              (split-line (codes "__SSH_MCP_LOG=") log_path [] log-IsName l)))
    ∙ last_lines (codes "__SSH_MCP_JOB_ID=" ++ job_id) (codes "__SSH_MCP_PID=" ++ decimal pid)
        (codes "__SSH_MCP_LOG=" ++ log_path)

-- the three values that the lines hold
abbrev all_found : Text → ℕ → Text → Found
all_found job_id pid log_path = record {
  job_id = some job_id;
  pid = some pid;
  log_path = some log_path;
}

marker_lines-read :
    (job_id : Text) (pid : ℕ) (log_path : Text)
    → IsPrintable job_id
    → IsPrintable log_path
    → pid < 2 ^ 32
    → marker_lines
        ((codes "__SSH_MCP_JOB_ID=" ++ job_id)
          ∷ (codes "__SSH_MCP_PID=" ++ decimal pid)
          ∷ (codes "__SSH_MCP_LOG=" ++ log_path)
          ∷ [])
        (record { job_id = none; pid = none; log_path = none })
      ≡ ok (all_found job_id pid log_path)
unfolding marker_lines
marker_lines-read job_id pid log_path j l small =
    rw
      (
        trim-line (codes "__SSH_MCP_JOB_ID=") job_id job_id-IsName j,
        trim-line (codes "__SSH_MCP_PID=") (decimal pid) pid-IsName (decimal-IsPrintable pid),
        trim-line (codes "__SSH_MCP_LOG=") log_path log-IsName l,
        parse_u32-decimal pid small,
      )
      refl

check_found-read :
    (job_id : Text) (pid : ℕ) (log_path : Text)
    → 0 < pid
    → check_found job_id log_path (all_found job_id pid log_path)
      ≡ ok (record { job_id = job_id; pid = pid; remote_log_path = log_path })
unfolding check_found
check_found-read job_id pid log_path some_pid =
    let not_zero : (pid == 0) ≡ false = ground arith in
    rw (not_zero, (text_eq_iff job_id job_id).1 refl, (text_eq_iff log_path log_path).1 refl) refl

-- What the wrapper prints of a job is read back: its id, its process id and its log's path, where
-- these hold no line break and end in no carriage return, and the process id is a positive one of
-- 32 bits.
pub parse_background_markers-printed :
    (job_id : Text) (pid : ℕ) (log_path : Text)
    → IsPrintable job_id
    → IsPrintable log_path
    → 0 < pid
    → pid < 2 ^ 32
    → parse_background_markers (printed job_id pid log_path) job_id log_path
      ≡ ok (record { job_id = job_id; pid = pid; remote_log_path = log_path })
unfolding parse_background_markers
parse_background_markers-printed job_id pid log_path j l some_pid small =
    rw (lines-printed job_id pid log_path j l, marker_lines-read job_id pid log_path j l small)
      (check_found-read job_id pid log_path some_pid)
