-- ===== src/Identification/Replay.antt =====
-- The SSH library reads what the peer sent, and the peer sees what the library wrote.
use se_sshion.Base.{
  ℕ, ◌+◌, ◌-◌, ◌≤◌, ◌<◌, Option, none, some, List, [], ◌∷◌, ◌++◌, ◌≡◌, refl, sym, ap, ◌∙◌, arith,
  append_assoc, append-nil, ltb, Bool-cases, inl, inr, subst,
}
use se_sshion.Base.Lists.{
  length, take, drop, drop-take, drop-beyond, drop-take_add, take-append-drop, take_add,
}
use se_sshion.Base.Text.{text_eq, text_eq_iff}
use se_sshion.Identification.{Bytes}
use se_sshion.Identification.Stream.{IdentificationStream, poll_read, poll_write, read_all}
use Prim.Native.Nat.{min}

-- All that is still to be read.
abbrev pub to_read : IdentificationStream → Bytes
to_read s = drop s.replay_offset s.replay ++ s.unread

poll_read-to_read :
    (room ready : ℕ) (s : IdentificationStream)
    → (poll_read room ready s).0 ++ to_read (poll_read room ready s).1 ≡ to_read s
unfolding poll_read
poll_read-to_read room ready s = elim (Bool-cases (ltb s.replay_offset (length s.replay))) [
  | inl e ↦
      let end : ℕ = min (length s.replay) (s.replay_offset + room) in
      rw e (
        sym (append_assoc (drop s.replay_offset (take end s.replay)) (drop end s.replay) s.unread)
        ∙ ap (λ t. t ++ s.unread) (drop-take s.replay_offset end s.replay (ground arith)))
  | inr e ↦
      let gone : drop s.replay_offset s.replay ≡ [] =
        drop-beyond s.replay_offset s.replay (ground arith) in
      rw e (
        ap (λ t. take (min room ready) s.unread ++ (t ++ drop (min room ready) s.unread)) gone
        ∙ take-append-drop (min room ready) s.unread
        ∙ ap (λ t. t ++ s.unread) (sym gone))
]

-- Whatever reads the library makes, what they return and what is left are the bytes that the
-- exchange kept and those that were not read: nothing is lost, doubled or out of order.
pub read_all-to_read :
    (polls : List (ℕ × ℕ)) (s : IdentificationStream)
    → (read_all polls s).0 ++ to_read (read_all polls s).1 ≡ to_read s
unfolding read_all
read_all-to_read [] s = refl
read_all-to_read ((room, ready) ∷ polls) s =
    append_assoc (poll_read room ready s).0 (read_all polls (poll_read room ready s).1).0 _
    ∙ ap (λ t. (poll_read room ready s).0 ++ t) (read_all-to_read polls (poll_read room ready s).1)
    ∙ poll_read-to_read room ready s

-- What the library has put out so far: its ID as far as it was matched, then what went through.
abbrev pub put_out : IdentificationStream → Bytes
put_out s = take s.client_id_offset s.client_id ++ s.written

-- Nothing goes through before the whole ID was matched.
pub record IsMatched (s : IdentificationStream) : Type 0 where
  pub within : s.client_id_offset ≤ length s.client_id
  pub silent : s.client_id_offset < length s.client_id → s.written ≡ []

-- `accepted` bytes of the buffer were taken, and the ID is the same.
pub record Puts (buffer : Bytes) (accepted : ℕ) (s s' : IdentificationStream) : Type 0 where
  pub bounded : accepted ≤ length buffer
  pub same_id : s'.client_id ≡ s.client_id
  pub appended : put_out s' ≡ put_out s ++ take accepted buffer
  pub matched : IsMatched s'

matching-Puts :
    (buffer : Bytes) (s : IdentificationStream) (count : ℕ)
    → IsMatched s
    → s.client_id_offset < length s.client_id
    → count ≡ min (length buffer) (length s.client_id - s.client_id_offset)
    → take count buffer ≡ drop s.client_id_offset (take (s.client_id_offset + count) s.client_id)
    → Puts buffer count s (record s { client_id_offset = s.client_id_offset + count })
matching-Puts buffer s count m open_id count_is same = record {
  bounded = ground arith;
  same_id = refl;
  appended =
      rw (m.silent open_id, append-nil (take s.client_id_offset s.client_id))
        (append-nil (take (s.client_id_offset + count) s.client_id)
          ∙ take_add s.client_id_offset count s.client_id
          ∙ ap (λ t. take s.client_id_offset s.client_id ++ t)
              (sym (drop-take_add s.client_id_offset count s.client_id) ∙ sym same));
  matched = record { within = ground arith; silent = λ h. m.silent open_id };
}

passing-Puts :
    (buffer : Bytes) (s : IdentificationStream) (count : ℕ)
    → IsMatched s
    → length s.client_id ≤ s.client_id_offset
    → count ≤ length buffer
    → Puts buffer count s (record s { written = s.written ++ take count buffer })
passing-Puts buffer s count m whole few = record {
  bounded = few;
  same_id = refl;
  appended = sym (append_assoc (take s.client_id_offset s.client_id) s.written (take count buffer));
  matched = record { within = m.within; silent = λ h. ground arith };
}

-- what holds of a result, where there is one
abbrev OnSome {ℓ} : {A : Type ℓ} → (A → Type 0) → Option A → Type 0
OnSome P none = Unit
OnSome P (some a) = P a

poll_write-OnSome :
    (buffer : Bytes) (ready : ℕ) (s : IdentificationStream)
    → IsMatched s
    → OnSome (λ (r : ℕ × IdentificationStream). Puts buffer r.0 s r.1) (poll_write buffer ready s)
unfolding poll_write
poll_write-OnSome buffer ready s m =
    elim (Bool-cases (ltb s.client_id_offset (length s.client_id))) [
      | inl e ↦
          let count : ℕ = min (length buffer) (length s.client_id - s.client_id_offset) in
          let expected : Bytes =
            drop s.client_id_offset (take (s.client_id_offset + count) s.client_id) in
          elim (Bool-cases (text_eq (take count buffer) expected)) [
            | inl same ↦
                rw (e, same)
                  (matching-Puts buffer s count m (ground arith) refl
                    ((text_eq_iff (take count buffer) expected).0 same))
            | inr other ↦ rw (e, other) tt
          ]
      | inr e ↦
          rw e (passing-Puts buffer s (min (length buffer) ready) m (ground arith) (ground arith))
    ]

-- A write that is accepted adds exactly the accepted bytes to what the library has put out, and
-- nothing but those behind the whole ID is written to the peer.
pub poll_write-Puts :
    (buffer : Bytes) (ready : ℕ) (s : IdentificationStream) {accepted : ℕ}
    {s' : IdentificationStream}
    → IsMatched s
    → poll_write buffer ready s ≡ some (accepted, s')
    → Puts buffer accepted s s'
unfolding poll_write
poll_write-Puts buffer ready s m h =
    subst (OnSome (λ (r : ℕ × IdentificationStream). Puts buffer r.0 s r.1)) h
      (poll_write-OnSome buffer ready s m)
