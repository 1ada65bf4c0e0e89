-- ===== src/Lib.antt =====
-- A verification library for SeSSHion, an MCP server that works on remote hosts over SSH. The
-- server's tools run commands, edit files and transfer trees; each tool checks its arguments,
-- builds a command line for a remote shell, runs it on a connection and answers with the result.
-- Modelled are the parts that decide what is run and what is written.
--
-- Base: the library's names, and what the parts share. Base/Lists has lists over the native
-- numbers, Base/Results a result type with its do block, Base/Text the string operations of the
-- Rust standard library that the program calls, with UTF-8 in Base/Text/Utf8, Base/Decimal the
-- printing of numbers, Base/Words the arithmetic of machine integers that saturates. A text is the
-- list of its characters' code points, and a byte string is a list of bytes.
-- Validate: `validate_basic_path_str` of src/validate.rs.
-- Patch: src/patch.rs. Patch/Parse is `parse_patch` and `FilePatch::parse_section`, Patch/Apply
-- `apply_hunks`, Patch/Plan `FilePatch::plan`. A message is the value that it is formatted from.
-- Shell: src/shell_escape.rs, src/ssh/sanitize.rs, src/ssh/elevation.rs and
-- src/background/wrapper.rs, the commands that are checked, quoted and wrapped. The shell that
-- reads them is not part of the program: Shell/Quoting states, as laws of a `PosixReader`, the
-- rules of the Shell Command Language that the quoting relies on.
-- Identification: src/ssh/identification.rs, the exchange of the SSH identifications in front of
-- the SSH library, and in Identification/Stream the stream that replays it. The peer is the bytes
-- that it sends before it closes, with the sizes in which the reads deliver them.
-- Background: the background jobs. Background itself is src/background/job.rs, and the job's log is
-- Background/Stream, of src/background/stream.rs, on the messages that a channel delivers.
-- Background/Registry is src/background/registry.rs, with the other tasks' work between the two
-- loops of `prune_expired` as two states that need not agree. Background/Marker is
-- `parse_background_markers` of src/background/marker.rs. Background/Transfer is
-- src/background/transfer.rs, the state of a background transfer and the registry of transfers, on
-- the requests and answers of src/transfer/types.rs, which are in Transfer.
-- RouterOs: src/ssh/routeros.rs, the native commands of RouterOS: the output that is collected up to
-- a limit, and in RouterOs/Owner the task that owns the channel of a command. What the task awaits
-- is an argument, in the order of the awaits.
-- Environment: src/ssh/environment.rs, the snapshot of a remote host, read from the answer of a
-- probe. Environment itself, Environment/Release and Environment/Elf read single values,
-- Environment/Snapshot is `parse_snapshot`.
-- Config: `parse_jump_endpoint` of src/config.rs.
-- Tar: src/transfer/tar.rs. Tar itself is the headers, as they are written and as they are read,
-- Tar/Paths is `sanitize_tar_path`, and Tar/Extract `extract_tar_to_dir`, on a stream of bytes whose
-- reads may fail and a file system that carries out each action or refuses it.
-- Tests: runs on the inputs of the program's own tests, and the properties at concrete inputs.
--
-- The loops over lines, bytes and messages are recursion on them. Some run on fuel: `identify_loop`
-- is given one round more than the peer sends bytes, which is enough since each round but the last
-- reads at least one; `decimal_digits` is given one round more than the number, which is enough
-- since each round divides it by ten. The loops of an extraction are given as many rounds as there
-- are bytes to copy, or one more than the stream has bytes, which is enough since each reads at
-- least one.
--
-- Not modelled: the network and the SSH library, the file system, the clock and the log, the MCP
-- protocol and its JSON, and the tools' handlers, which connect these to the parts above. Of
-- src/ssh/identification.rs, the formatting and writing of the client ID in `identify`; of
-- src/transfer/tar.rs, the walk over a directory that is written as a tar stream; of
-- src/ssh/environment.rs, the probe's script and the task that runs it.
pub mod Base
pub mod Validate
pub mod Patch
pub mod Shell
pub mod Identification
pub mod Background
pub mod RouterOs
pub mod Config
pub mod Transfer
pub mod Tar
pub mod Environment
pub mod Tests
