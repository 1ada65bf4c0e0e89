-- ===== src/Tests/IdentificationExamples.antt =====
-- The identification exchange at concrete streams.
use se_sshion.Base.{some, [], ◌∷◌, ◌++◌, ◌≡◌, refl, arith, ok}
use se_sshion.Base.Text.{codes}
use se_sshion.Identification.{Bytes, Identified, routeros, scan, identify}
use se_sshion.Identification.Fragments.{Decides, verdict, identify-Decides}
use se_sshion.Identification.Stream.{IdentificationStream, stream_of, poll_write, read_all}
use se_sshion.Identification.Replay.{to_read, IsMatched, Puts, read_all-to_read, poll_write-Puts}

-- a preamble line, a RouterOS identification, and the start of the key exchange
abbrev sent : Bytes
sent = codes "hello\nSSH-2.0-ROSSSH\r\nkex"

identify-Decides_example : Decides (identify (λ round. 2) sent) (verdict (scan 0 [] sent)) sent
identify-Decides_example = identify-Decides (λ round. 2) sent

finds_routeros : verdict (scan 0 [] sent) ≡ ok routeros
unfolding scan
finds_routeros = refl

abbrev identified : Identified
identified = record {
  platform = routeros;
  replay = codes "hello\nSSH-2.0-ROSSSH\r\nke";
  unread = codes "x";
}

reads_by_threes :
    identify (λ round. 2) (codes "hello\nSSH-2.0-ROSSSH\r\nkex") ≡ some (ok identified)
unfolding identify
reads_by_threes = refl

abbrev stream : IdentificationStream
stream = stream_of (codes "SSH-2.0-x\r\n") identified

read_all-to_read_example :
    (read_all ((8, 8) ∷ (64, 0) ∷ (64, 2) ∷ []) stream).0
      ++ to_read (read_all ((8, 8) ∷ (64, 0) ∷ (64, 2) ∷ []) stream).1
    ≡ to_read stream
read_all-to_read_example = read_all-to_read ((8, 8) ∷ (64, 0) ∷ (64, 2) ∷ []) stream

starts-IsMatched : IsMatched stream
starts-IsMatched = record { within = ground arith; silent = λ h. refl }

abbrev half_way : IdentificationStream
half_way = record stream { client_id_offset = 4 }

matches_four : poll_write (codes "SSH-") 64 stream ≡ some (4, half_way)
unfolding poll_write
matches_four = refl

poll_write-Puts_example : Puts (codes "SSH-") 4 stream half_way
poll_write-Puts_example = poll_write-Puts (codes "SSH-") 64 stream starts-IsMatched matches_four
