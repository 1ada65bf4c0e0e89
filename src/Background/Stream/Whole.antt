-- ===== src/Background/Stream/Whole.antt =====
-- The whole copy of a channel, from the file's start.
use se_sshion.Base.{
  ◌>>=◌, ◌>>◌, if◌then◌else◌, Bool, true, false, Option, List, [], ◌∷◌, ◌++◌, ◌≡◌, ◌⊎◌, inl, refl,
  sym, ap, ◌∙◌, append-nil, Result, ok, OnOk, OnOk-bind, OnOk-bind_eq, inr, OnOk-use,
}
use se_sshion.Base.Integers.{ℤ}
use se_sshion.Background.Stream.{
  Bytes, Event, is_some, Progress, stream_loop, none, stream_channel_inner, is_nil,
}
use se_sshion.Background.Stream.Log.{outputs, last_exit, MayStop, Copied, stream_loop-Copied}

-- A log that holds the bytes appended to it.
module _ {File Fault : Type 0} (append : Bytes → File → Result Fault File) (contents : File → Bytes)
    (append-contents : (bytes : Bytes) (file file' : File)
      → append bytes file ≡ ok file'
      → contents file' ≡ contents file ++ bytes) where
  -- the whole copy, behind the file's start
  pub record Streamed (opened : File) (initial_stdout : Bytes) (events : List Event)
      (r : Option ℤ × File) : Type 0 where
    pub front : List Event
    pub back : List Event
    pub splits : events ≡ front ++ back
    pub logged : contents r.1 ≡ (contents opened ++ initial_stdout) ++ outputs front
    pub exits : r.0 ≡ last_exit none front
    pub stops : (back ≡ []) ⊎ (is_some r.0 ≡ true)

  MayStop-cases :
      (code : Option ℤ) (closed : Bool) (back : List Event)
      → MayStop code closed back
      → (back ≡ []) ⊎ (is_some code ≡ true)
  MayStop-cases code closed [] h = inl refl
  MayStop-cases code closed ((msg, in_time) ∷ back) h = inr h.0

  loop-Streamed :
      (sync : File → Result Fault (Unit {0})) (opened file : File) (initial_stdout : Bytes)
      (events : List Event)
      → contents file ≡ contents opened ++ initial_stdout
      → OnOk (Streamed opened initial_stdout events) (
          stream_loop append
            (record { file = file; exit_code = none; saw_close_or_eof = false })
            events
          >>= λ p. sync p.file >> ok (p.exit_code, p.file))
  loop-Streamed sync opened file initial_stdout events start =
      let begin : Progress File = record {
        file = file;
        exit_code = none;
        saw_close_or_eof = false;
      } in
      OnOk-bind (Copied append contents append-contents begin events)
        (Streamed opened initial_stdout events) (stream_loop append begin events) _
        (stream_loop-Copied append contents append-contents begin events)
        (λ p c. OnOk-bind_eq (Streamed opened initial_stdout events) (sync p.file) _ (λ done e.
          record {
            front = c.front;
            back = c.back;
            splits = c.splits;
            logged = c.logged ∙ ap (λ t. t ++ outputs c.front) start;
            exits = c.exits;
            stops = MayStop-cases p.exit_code p.saw_close_or_eof c.back c.stops;
          }))

  start-contents :
      (initial_stdout : Bytes) (opened file : File)
      → (if is_nil initial_stdout then ok opened else append initial_stdout opened) ≡ ok file
      → contents file ≡ contents opened ++ initial_stdout
  start-contents [] opened file e =
      OnOk-use (λ f. contents f ≡ contents opened ++ []) (ok opened)
        (sym (append-nil (contents opened))) e
  start-contents (b ∷ bytes) opened file e = append-contents (b ∷ bytes) opened file e

  -- What a stream that succeeds has done: the log holds what it held, the output read with the
  -- markers, and the output of the messages up to the stop; the result is their last exit code;
  -- and no message is left out unless there is such a code.
  pub stream_channel_inner-Streamed :
      (sync : File → Result Fault (Unit {0})) (opened : File) (initial_stdout : Bytes)
      (events : List Event) {r : Option ℤ × File}
      → stream_channel_inner append sync (ok opened) initial_stdout events ≡ ok r
      → Streamed opened initial_stdout events r
  unfolding stream_channel_inner
  stream_channel_inner-Streamed sync opened initial_stdout events h =
      OnOk-use (Streamed opened initial_stdout events) _
        (OnOk-bind_eq (Streamed opened initial_stdout events)
          (if is_nil initial_stdout then ok opened else append initial_stdout opened) _
          (λ file e.
            loop-Streamed sync opened file initial_stdout events
              (start-contents initial_stdout opened file e)))
        h
