-- ===== src/Validate.antt =====
-- src/validate.rs: the checks that every path from a client passes first. The label of the
-- field, which only words the message, is left out.
use se_sshion.Base.{not, [], ◌∷◌, ◌==◌, ◌>>◌, reject_if, Result, ok, ◌≡◌, false, arith}
use se_sshion.Base.Lists.{any, is_nil}
use se_sshion.Base.Text.{Text, text_eq, trim, is_control, starts_with}

pub data PathFault : Type 0 where
  empty whitespace_only surrounding_whitespace nul control leading_dash : PathFault

unfoldable pub validate_basic_path_str : Text → Result PathFault (Unit {0})
validate_basic_path_str path = do
  reject_if (is_nil path) empty
  reject_if (is_nil (trim path)) whitespace_only
  reject_if (not (text_eq path (trim path))) surrounding_whitespace
  reject_if (any (λ c. c == 0) path) nul
  reject_if (any is_control path) control
  reject_if (starts_with (b'-' ∷ []) path) leading_dash
  ok tt

-- A path that passes has no control character, so it stands on one line.
pub validate_basic_path_str-control :
    (path : Text) → validate_basic_path_str path ≡ ok tt → any is_control path ≡ false
unfolding validate_basic_path_str
validate_basic_path_str-control path h = ground arith
