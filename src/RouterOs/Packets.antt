-- ===== src/RouterOs/Packets.antt =====
-- The packets that a command's channel brings, as the loop's specification reads them.
use se_sshion.Base.{Bool, true, Option, none, some, List, [], ◌∷◌, ◌++◌, ◌==◌, if◌then◌else◌, false}
use se_sshion.Base.Text.Utf8.{Bytes}
use se_sshion.RouterOs.{ChannelMsg, data_bytes, extended_data, failure, close, Waited, ready, stop}

-- the output that a wait brings, for each stream
abbrev pub stdout_of : Waited (Option ChannelMsg) → Bytes
stdout_of (ready (some (data_bytes bytes))) = bytes
stdout_of (ready (some (extended_data ext bytes))) = if ext == 1 then [] else bytes
stdout_of _ = []

abbrev pub stderr_of : Waited (Option ChannelMsg) → Bytes
stderr_of (ready (some (extended_data ext bytes))) = if ext == 1 then bytes else []
stderr_of _ = []

abbrev pub all_of : (Waited (Option ChannelMsg) → Bytes) → List (Waited (Option ChannelMsg)) → Bytes
all_of stream [] = []
all_of stream (w ∷ waits) = stream w ++ all_of stream waits

-- The session ends with a failure, with its close, or with the channel itself.
abbrev pub ends : Option ChannelMsg → Bool
ends (some failure) = true
ends (some close) = true
ends none = true
ends (some _) = false

-- the waits that bring a packet, up to the one that ends the session, or to the first that brings
-- a reason to stop
abbrev pub read_until : List (Waited (Option ChannelMsg)) → List (Waited (Option ChannelMsg))
read_until [] = []
read_until (stop reason ∷ waits) = []
read_until (ready message ∷ waits) =
    let rest = read_until waits in ready message ∷ (if ends message then [] else rest)
