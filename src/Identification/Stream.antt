-- ===== src/Identification/Stream.antt =====
-- src/ssh/identification.rs: `IdentificationStream`, the stream that the SSH library is given. A
-- poll that is pending or that the inner stream fails leaves the state as it is.
use se_sshion.Base.{ℕ, ◌+◌, ◌-◌, not, Option, none, some, List, [], ◌∷◌, ◌++◌, ltb, if◌then◌else◌}
use se_sshion.Base.Lists.{length, take, drop}
use se_sshion.Base.Text.{text_eq}
use se_sshion.Identification.{Bytes, Identified}
use Prim.Native.Nat.{min}

pub record IdentificationStream : Type 0 where
  -- the inner stream: what it has still to deliver, and what was written to it
  pub unread : Bytes
  pub written : Bytes
  pub replay : Bytes
  pub replay_offset : ℕ
  pub client_id : Bytes
  pub client_id_offset : ℕ

-- the value that `identify` returns, over a stream that got nothing but the client's ID
abbrev pub stream_of : Bytes → Identified → IdentificationStream
stream_of client_id i = record {
  unread = i.unread;
  written = [];
  replay = i.replay;
  replay_offset = 0;
  client_id = client_id;
  client_id_offset = 0;
}

-- The bytes put in a buffer with room for `room`, where the inner stream would give `ready`.
unfoldable pub poll_read : ℕ → ℕ → IdentificationStream → Bytes × IdentificationStream
poll_read room ready s =
    if ltb s.replay_offset (length s.replay)
    then (let end = min (length s.replay) (s.replay_offset + room) in
        (drop s.replay_offset (take end s.replay), record s { replay_offset = end }))
    else (let count = min room ready in
        (take count s.unread, record s { unread = drop count s.unread }))

-- The count of bytes accepted, where the inner stream would take `ready`; `none` is the error on
-- an identification that is not the one exchanged.
unfoldable pub poll_write : Bytes → ℕ → IdentificationStream → Option (ℕ × IdentificationStream)
unfolding text_eq
poll_write buffer ready s =
    if ltb s.client_id_offset (length s.client_id)
    then (let count = min (length buffer) (length s.client_id - s.client_id_offset) in
        if not (
          text_eq (take count buffer)
            (drop s.client_id_offset (take (s.client_id_offset + count) s.client_id)))
        then none
        else some (count, record s { client_id_offset = s.client_id_offset + count }))
    else (let count = min (length buffer) ready in
        some (count, record s { written = s.written ++ take count buffer }))

-- The reads of a session, each with its buffer's room and what the inner stream would give.
unfoldable pub read_all : List (ℕ × ℕ) → IdentificationStream → Bytes × IdentificationStream
unfolding poll_read
read_all [] s = ([], s)
read_all ((room, ready) ∷ polls) s =
    let (bytes, s') = poll_read room ready s in
    let (more, s'') = read_all polls s' in (bytes ++ more, s'')
