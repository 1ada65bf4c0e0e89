-- ===== src/Config.antt =====
-- src/config.rs: the endpoint of a jump host, as the command line gives it.
pub mod Printed
use se_sshion.Base.{
  ℕ, Bool, true, false, not, ◌&&◌, ◌||◌, Option, none, some, ◌==◌, if_some, Result, ok, err, ◌>>=◌,
  ◌>>◌, reject_if, ok_or,
}
use se_sshion.Base.Lists.{any, is_nil}
use se_sshion.Base.Text.{Text, is_whitespace}
use se_sshion.Base.Text.Reading.{split_once, rsplit_once, parse_unsigned}

pub data JumpFault : Type 0 where
  no_user_at_host bad_port empty_value : JumpFault

-- `match endpoint.rsplit_once(':')`
unfoldable pub host_and_port : Text → Option (Text × Text) → Result JumpFault (Text × ℕ)
unfolding parse_unsigned
host_and_port endpoint none = ok (endpoint, 22)
host_and_port endpoint (some (host, port)) = do
  number ← ok_or (parse_unsigned 65535 port) bad_port
  ok (host, number)

unfoldable pub parse_jump_endpoint : Text → Result JumpFault (Text × Text × ℕ)
unfolding split_once rsplit_once host_and_port is_whitespace
parse_jump_endpoint value = do
  (user, endpoint) ← ok_or (split_once b'@' value) no_user_at_host
  reject_if (is_nil user || (is_nil endpoint || any (λ c. c == b'@') endpoint)) no_user_at_host
  (host, port) ← host_and_port endpoint (rsplit_once b':' endpoint)
  reject_if (is_nil host || (port == 0 || (any is_whitespace user || any is_whitespace host)))
      empty_value
  ok (user, host, port)
