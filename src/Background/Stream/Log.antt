-- ===== src/Background/Stream/Log.antt =====
-- What the log holds when the loop ends, and the exit code that it found.
use se_sshion.Base.{
  if◌then◌else◌, Bool, true, false, Option, some, List, [], ◌∷◌, ◌++◌, ◌≡◌, ◌⊎◌, inl, refl, sym, ap,
  ◌∙◌, arith, append_assoc, append-nil, Result, ok, OnOk, OnOk-bind, OnOk-bind_eq, OnOk-if,
  OnOk-map,
}
use se_sshion.Base.Integers.{ℤ}
use se_sshion.Background.Stream.{
  Bytes, ChannelMsg, data_bytes, extended_data, exit_status, exit_signal, close, eof, other, Event,
  is_some, Progress, receive, timed_out, stream_loop, clamp_exit_status, signal_code,
}

-- the output that a message carries
abbrev pub output : ChannelMsg → Bytes
output (data_bytes bytes) = bytes
output (extended_data bytes) = bytes
output (exit_status status) = []
output (exit_signal signal) = []
output close = []
output eof = []
output other = []

abbrev pub outputs : List Event → Bytes
outputs [] = []
outputs (e ∷ events) = output e.0 ++ outputs events

-- the exit code after a message
abbrev pub exit_after : ChannelMsg → Option ℤ → Option ℤ
exit_after (exit_status status) code = some (clamp_exit_status status)
exit_after (exit_signal signal) code = some (signal_code signal)
exit_after (data_bytes bytes) code = code
exit_after (extended_data bytes) code = code
exit_after close code = code
exit_after eof code = code
exit_after other code = code

-- the last exit code of the messages
abbrev pub last_exit : Option ℤ → List Event → Option ℤ
last_exit code [] = code
last_exit code (e ∷ events) = last_exit (exit_after e.0 code) events

-- The loop left no message, or it has an exit code and the channel was closed or went silent.
abbrev pub MayStop : Option ℤ → Bool → List Event → Type 0
MayStop code closed [] = Unit
MayStop code closed ((msg, in_time) ∷ events) =
    (is_some code ≡ true) × ((closed ≡ true) ⊎ (in_time ≡ false))

-- A log that holds the bytes appended to it.
module _ {File Fault : Type 0} (append : Bytes → File → Result Fault File) (contents : File → Bytes)
    (append-contents : (bytes : Bytes) (file file' : File)
      → append bytes file ≡ ok file'
      → contents file' ≡ contents file ++ bytes) where
  pub record Copied (p : Progress File) (events : List Event) (p' : Progress File) : Type 0 where
    pub front : List Event
    pub back : List Event
    pub splits : events ≡ front ++ back
    pub logged : contents p'.file ≡ contents p.file ++ outputs front
    pub exits : p'.exit_code ≡ last_exit p.exit_code front
    pub stops : MayStop p'.exit_code p'.saw_close_or_eof back

  -- what one message did
  record Received (msg : ChannelMsg) (p : Progress File) (r : Progress File × Bool) : Type 0 where
    logged : contents r.0.file ≡ contents p.file ++ output msg
    exits : r.0.exit_code ≡ exit_after msg p.exit_code
    closed : r.1 ≡ true → (is_some r.0.exit_code ≡ true) × (r.0.saw_close_or_eof ≡ true)

  receive-Received :
      (msg : ChannelMsg) (p : Progress File) → OnOk (Received msg p) (receive append msg p)
  unfolding receive
  receive-Received (data_bytes bytes) p =
      OnOk-bind_eq (Received (data_bytes bytes) p) (append bytes p.file) _ (λ file e. record {
        logged = append-contents bytes p.file file e;
        exits = refl;
        closed = λ h. cc;
      })
  receive-Received (extended_data bytes) p =
      OnOk-bind_eq (Received (extended_data bytes) p) (append bytes p.file) _ (λ file e. record {
        logged = append-contents bytes p.file file e;
        exits = refl;
        closed = λ h. cc;
      })
  receive-Received (exit_status status) p = record {
    logged = sym (append-nil (contents p.file));
    exits = refl;
    closed = λ h. cc;
  }
  receive-Received (exit_signal signal) p = record {
    logged = sym (append-nil (contents p.file));
    exits = refl;
    closed = λ h. cc;
  }
  receive-Received close p = record {
    logged = sym (append-nil (contents p.file));
    exits = refl;
    closed = λ h. (h, refl);
  }
  receive-Received eof p = record {
    logged = sym (append-nil (contents p.file));
    exits = refl;
    closed = λ h. (h, refl);
  }
  receive-Received other p = record {
    logged = sym (append-nil (contents p.file));
    exits = refl;
    closed = λ h. cc;
  }

  closed-MayStop :
      (code : Option ℤ) (closed : Bool) (events : List Event)
      → is_some code ≡ true
      → closed ≡ true
      → MayStop code closed events
  closed-MayStop code closed [] h k = tt
  closed-MayStop code closed ((msg, in_time) ∷ events) h k = (h, inl k)

  late-Copied :
      (p : Progress File) (msg : ChannelMsg) (in_time : Bool) (events : List Event)
      → timed_out p in_time ≡ true
      → Copied p ((msg, in_time) ∷ events) p
  late-Copied p msg in_time events h = record {
    front = [];
    back = (msg, in_time) ∷ events;
    splits = refl;
    logged = sym (append-nil (contents p.file));
    exits = refl;
    stops = ground arith;
  }

  closed-Copied :
      (p : Progress File) (msg : ChannelMsg) (in_time : Bool) (events : List Event)
      (p' : Progress File)
      → Received msg p (p', true)
      → Copied p ((msg, in_time) ∷ events) p'
  closed-Copied p msg in_time events p' r = record {
    front = (msg, in_time) ∷ [];
    back = events;
    splits = refl;
    logged = r.logged ∙ ap (λ t. contents p.file ++ t) (sym (append-nil (output msg)));
    exits = r.exits;
    stops =
        closed-MayStop p'.exit_code p'.saw_close_or_eof events (r.closed refl).0 (r.closed refl).1;
  }

  next-Copied :
      (p : Progress File) (msg : ChannelMsg) (in_time : Bool) (events : List Event)
      (p' p'' : Progress File)
      → Received msg p (p', false)
      → Copied p' events p''
      → Copied p ((msg, in_time) ∷ events) p''
  next-Copied p msg in_time events p' p'' r c = record {
    front = (msg, in_time) ∷ c.front;
    back = c.back;
    splits = ap (◌∷◌ (msg, in_time)) c.splits;
    logged =
        c.logged
        ∙ ap (λ t. t ++ outputs c.front) r.logged
        ∙ append_assoc (contents p.file) (output msg) (outputs c.front);
    exits = c.exits ∙ ap (λ code. last_exit code c.front) r.exits;
    stops = c.stops;
  }

  Received-Copied :
      (p : Progress File) (msg : ChannelMsg) (in_time : Bool) (events : List Event)
      (r : Progress File × Bool)
      → Received msg p r
      → ((p' : Progress File) → OnOk (Copied p' events) (stream_loop append p' events))
      → OnOk
          (Copied p ((msg, in_time) ∷ events))
          (if r.1 then ok r.0 else stream_loop append r.0 events)
  Received-Copied p msg in_time events (p', true) h rest = closed-Copied p msg in_time events p' h
  Received-Copied p msg in_time events (p', false) h rest =
      OnOk-map (Copied p' events) (Copied p ((msg, in_time) ∷ events))
        (stream_loop append p' events) (λ p'' c. next-Copied p msg in_time events p' p'' h c)
        (rest p')

  -- The loop ends on every channel, and unless an append fails it has copied the output of the
  -- messages up to its stop, with the last exit code among them.
  pub stream_loop-Copied :
      (p : Progress File) (events : List Event)
      → OnOk (Copied p events) (stream_loop append p events)
  unfolding stream_loop
  stream_loop-Copied p [] = record {
    front = [];
    back = [];
    splits = refl;
    logged = sym (append-nil (contents p.file));
    exits = refl;
    stops = tt;
  }
  stream_loop-Copied p ((msg, in_time) ∷ events) =
      OnOk-if (Copied p ((msg, in_time) ∷ events)) (timed_out p in_time) (ok p) _
        (λ late. late-Copied p msg in_time events late)
        (λ in_time_is.
          OnOk-bind (Received msg p) (Copied p ((msg, in_time) ∷ events)) (receive append msg p) _
            (receive-Received msg p)
            (λ r h. Received-Copied p msg in_time events r h (λ p'. stream_loop-Copied p' events)))
