-- ===== src/RouterOs/Collected.antt =====
-- What the drained channel leaves in the collector.
use se_sshion.Base.{
  zero, suc, ◌≤◌, ◌<◌, ◌↔◌, ltb_iff, ℕ, Bool, true, Option, none, some, List, [], ◌∷◌, ◌++◌, ◌≡◌,
  refl, sym, ap, ◌∙◌, arith, append_assoc, append-nil, if_some, ◌==◌, if◌then◌else◌, Bool-cases,
  inl, inr, subst, Result, false,
}
use se_sshion.Base.Text.{Text}
use se_sshion.Base.Text.Utf8.{Bytes, from_utf8_lossy}
use se_sshion.Base.Lists.{take, length}
use se_sshion.Base.Words.{u64_max, div_ceil}
use se_sshion.RouterOs.{
  BytePrefix, ChannelMsg, data_bytes, extended_data, exit_status, exit_signal, failure, close, eof,
  success, other, Cause, Collector, new_collector, event, Waited, ready, stop, drain, no_bytes,
  finish_prefix, bytes_per_token, limit_of,
}
use se_sshion.RouterOs.Packets.{stdout_of, stderr_of, all_of, ends, read_until}
use se_sshion.RouterOs.Prefix.{limited, Keeps, append-Keeps}

-- The collector's streams are what came on them.
pub record Holds (stdout stderr : Bytes) (c : Collector) : Type 0 where
  pub out : Keeps c.limit stdout c.stdout
  pub errors : Keeps c.limit stderr c.stderr

take_none : (n : ℕ) → take {A = ℕ} n [] ≡ []
take_none zero = refl
take_none (suc n) = refl

append_none :
    (limit : Option ℕ) (stream : Bytes) (p : BytePrefix)
    → Keeps limit stream p
    → Keeps limit (stream ++ []) p
append_none limit stream p k = subst (λ s. Keeps limit s p) (sym (append-nil stream)) k

unchanged-Holds :
    (stdout stderr : Bytes) (c : Collector)
    → Holds stdout stderr c
    → Keeps c.limit (stdout ++ []) c.stdout × Keeps c.limit (stderr ++ []) c.stderr
unchanged-Holds stdout stderr c h =
    (append_none c.limit stdout c.stdout h.out, append_none c.limit stderr c.stderr h.errors)

-- from the two streams of a collector
both :
    {stdout stderr : Bytes} {c : Collector}
    → Keeps c.limit stdout c.stdout × Keeps c.limit stderr c.stderr
    → Holds stdout stderr c
both h = record { out = h.0; errors = h.1 }

event-Holds :
    (message : Option ChannelMsg) (stdout stderr : Bytes) (c : Collector)
    → Holds stdout stderr c
    → Holds
        (stdout ++ stdout_of (ready message))
        (stderr ++ stderr_of (ready message))
        (event message c).1
unfolding event
event-Holds (some (data_bytes bytes)) stdout stderr c h = record {
  out = append-Keeps c.limit stdout bytes c.stdout h.out;
  errors = append_none c.limit stderr c.stderr h.errors;
}
event-Holds (some (extended_data ext bytes)) stdout stderr c h = elim (Bool-cases (ext == 1)) [
  | inl e ↦ rw e (record {
    out = append_none c.limit stdout c.stdout h.out;
    errors = append-Keeps c.limit stderr bytes c.stderr h.errors;
  })
  | inr e ↦ rw e (record {
    out = append-Keeps c.limit stdout bytes c.stdout h.out;
    errors = append_none c.limit stderr c.stderr h.errors;
  })
]
event-Holds (some (exit_status status)) stdout stderr c h = both (unchanged-Holds stdout stderr c h)
event-Holds (some (exit_signal signal)) stdout stderr c h = both (unchanged-Holds stdout stderr c h)
event-Holds (some failure) stdout stderr c h = both (unchanged-Holds stdout stderr c h)
event-Holds (some close) stdout stderr c h = both (unchanged-Holds stdout stderr c h)
event-Holds (some eof) stdout stderr c h = both (unchanged-Holds stdout stderr c h)
event-Holds (some success) stdout stderr c h = both (unchanged-Holds stdout stderr c h)
event-Holds (some other) stdout stderr c h = both (unchanged-Holds stdout stderr c h)
event-Holds none stdout stderr c h = both (unchanged-Holds stdout stderr c h)

-- The loop leaves at a packet exactly where the packet ends the session.
event-ends :
    (message : Option ChannelMsg) (c : Collector)
    → if_some (event message c).0 (λ result. true) false ≡ ends message
unfolding event
event-ends none c = refl
event-ends (some (extended_data ext bytes)) c = elim (Bool-cases (ext == 1)) [
  | inl e ↦ rw e refl
  | inr e ↦ rw e refl
]
event-ends (some (data_bytes bytes)) c = refl
event-ends (some (exit_status status)) c = refl
event-ends (some (exit_signal signal)) c = refl
event-ends (some failure) c = refl
event-ends (some close) c = refl
event-ends (some eof) c = refl
event-ends (some success) c = refl
event-ends (some other) c = refl

-- The streams of the packets up to the end are kept.
abbrev Collected : Bytes → Bytes → List (Waited (Option ChannelMsg)) → Collector → Type 0
Collected stdout stderr read c =
    Holds (stdout ++ all_of stdout_of read) (stderr ++ all_of stderr_of read) c

-- a wait in front of what was collected
next-Collected :
    (stdout stderr : Bytes) (w : Waited (Option ChannelMsg))
    (read : List (Waited (Option ChannelMsg))) (c : Collector)
    → Collected (stdout ++ stdout_of w) (stderr ++ stderr_of w) read c
    → Collected stdout stderr (w ∷ read) c
next-Collected stdout stderr w read c h =
    rw
      (
        ← append_assoc stdout (stdout_of w) (all_of stdout_of read),
        ← append_assoc stderr (stderr_of w) (all_of stderr_of read),
      )
      h

step-Collected :
    (ended : Bool) (stdout stderr : Bytes) (read : List (Waited (Option ChannelMsg)))
    (handled : Option (Result Cause (Unit {0})) × Collector)
    (more : Result Cause (Unit {0}) × Collector)
    → if_some handled.0 (λ result. true) false ≡ ended
    → Holds stdout stderr handled.1
    → Collected stdout stderr read more.1
    → Collected stdout stderr
        (if ended then [] else read)
        (if_some handled.0 (λ result. (result, handled.1)) more).1
step-Collected true stdout stderr read (none, c) more e h rest = absurd (cc e)
step-Collected false stdout stderr read (none, c) more e h rest = rest
step-Collected true stdout stderr read (some result, c) more e h rest =
    both (unchanged-Holds stdout stderr c h)
step-Collected false stdout stderr read (some result, c) more e h rest = absurd (cc e)

drain-Collected :
    (waits : List (Waited (Option ChannelMsg))) (silence : Text) (stdout stderr : Bytes)
    (c : Collector)
    → Holds stdout stderr c
    → Collected stdout stderr (read_until waits) (drain waits silence c).1
unfolding drain
drain-Collected [] silence stdout stderr c h = both (unchanged-Holds stdout stderr c h)
drain-Collected (stop reason ∷ waits) silence stdout stderr c h =
    both (unchanged-Holds stdout stderr c h)
drain-Collected (ready message ∷ waits) silence stdout stderr c h =
    let out : Bytes = stdout ++ stdout_of (ready message) in
    let errors : Bytes = stderr ++ stderr_of (ready message) in
    let held : Holds out errors (event message c).1 = event-Holds message stdout stderr c h in
    next-Collected stdout stderr (ready message) (if ends message then [] else read_until waits) _ (
      step-Collected (ends message) out errors (read_until waits) (event message c)
        (drain waits silence (event message c).1) (event-ends message c) held
        (drain-Collected waits silence out errors (event message c).1 held))

event_limit : (message : Option ChannelMsg) (c : Collector) → (event message c).1.limit ≡ c.limit
unfolding event
event_limit none c = refl
event_limit (some (extended_data ext bytes)) c = elim (Bool-cases (ext == 1)) [
  | inl e ↦ rw e refl
  | inr e ↦ rw e refl
]
event_limit (some (data_bytes bytes)) c = refl
event_limit (some (exit_status status)) c = refl
event_limit (some (exit_signal signal)) c = refl
event_limit (some failure) c = refl
event_limit (some close) c = refl
event_limit (some eof) c = refl
event_limit (some success) c = refl
event_limit (some other) c = refl

step_limit :
    (limit : Option ℕ) (handled : Option (Result Cause (Unit {0})) × Collector)
    (more : Result Cause (Unit {0}) × Collector)
    → handled.1.limit ≡ limit
    → more.1.limit ≡ limit
    → (if_some handled.0 (λ result. (result, handled.1)) more).1.limit ≡ limit
step_limit limit (none, c) more h k = k
step_limit limit (some result, c) more h k = h

drain_limit :
    (waits : List (Waited (Option ChannelMsg))) (silence : Text) (c : Collector)
    → (drain waits silence c).1.limit ≡ c.limit
unfolding drain
drain_limit [] silence c = refl
drain_limit (stop reason ∷ waits) silence c = refl
drain_limit (ready message ∷ waits) silence c =
    step_limit c.limit (event message c) (drain waits silence (event message c).1)
      (event_limit message c)
      (drain_limit waits silence (event message c).1 ∙ event_limit message c)

-- What the result says of a stream that was kept.
pub record Shows (limit : Option ℕ) (stream : Bytes) (shown : Text × Bool × ℕ) : Type 0 where
  pub text : shown.0 ≡ from_utf8_lossy (limited limit stream)
  pub truncated : (shown.1 ≡ true) ↔ (length (limited limit stream) < length stream)
  pub tokens : shown.2 ≡ div_ceil (length stream) bytes_per_token

finish_prefix-Shows :
    (limit : Option ℕ) (stream : Bytes) (p : BytePrefix)
    → length stream ≤ u64_max
    → Keeps limit stream p
    → Shows limit stream (finish_prefix p)
unfolding finish_prefix
finish_prefix-Shows limit stream p small k =
    let total : p.total_bytes ≡ length stream = omega (arith, k.counted) in
    record {
      text = ap from_utf8_lossy k.kept;
      truncated = rw (k.kept, total) (ltb_iff (length (limited limit stream)) (length stream));
      tokens = ap (λ n. div_ceil n bytes_per_token) total;
    }

-- What is reported of the packets that are read.
pub record Reported (max_tokens : Option ℕ) (waits : List (Waited (Option ChannelMsg)))
    (c : Collector) : Type 0 where
  pub stdout :
      Shows (limit_of max_tokens) (all_of stdout_of (read_until waits)) (finish_prefix c.stdout)
  pub stderr :
      Shows (limit_of max_tokens) (all_of stderr_of (read_until waits)) (finish_prefix c.stderr)

abbrev pub started : Option ℕ → Collector
started max_tokens = record (new_collector max_tokens) { may_have_run = true }

empty-Keeps : (limit : Option ℕ) → Keeps limit [] no_bytes
empty-Keeps none = record { kept = refl; counted = omega arith }
empty-Keeps (some n) = record { kept = sym (take_none n); counted = omega arith }

new_collector-Holds : (max_tokens : Option ℕ) → Holds [] [] (started max_tokens)
unfolding new_collector
new_collector-Holds max_tokens = record {
  out = empty-Keeps (limit_of max_tokens);
  errors = empty-Keeps (limit_of max_tokens);
}

-- Whatever packets a command puts out, the loop reads them up to the one that ends the session, or
-- up to a reason to stop, and where each stream has at most 2^64 - 1 bytes in these packets, its
-- reported text is that of its first bytes up to the limit, is marked truncated exactly where
-- bytes are missing, and the tokens count the whole stream.
pub drain-Reported :
    (max_tokens : Option ℕ) (waits : List (Waited (Option ChannelMsg))) (silence : Text)
    → length (all_of stdout_of (read_until waits)) ≤ u64_max
    → length (all_of stderr_of (read_until waits)) ≤ u64_max
    → Reported max_tokens waits (drain waits silence (started max_tokens)).1
drain-Reported max_tokens waits silence small small' =
    let c : Collector = (drain waits silence (started max_tokens)).1 in
    let h : Collected [] [] (read_until waits) c =
      drain-Collected waits silence [] [] (started max_tokens) (new_collector-Holds max_tokens) in
    let bound : c.limit ≡ limit_of max_tokens =
      drain_limit waits silence (started max_tokens) ∙ (unfold new_collector in refl) in
    record {
      stdout =
          finish_prefix-Shows (limit_of max_tokens) _ c.stdout small
            (subst (λ l. Keeps l (all_of stdout_of (read_until waits)) c.stdout) bound h.out);
      stderr =
          finish_prefix-Shows (limit_of max_tokens) _ c.stderr small'
            (subst (λ l. Keeps l (all_of stderr_of (read_until waits)) c.stderr) bound h.errors);
    }
