-- ===== src/Tests/ConfigExamples.antt =====
-- Jump endpoints of the program's own tests.
use se_sshion.Base.{◌≡◌, refl, ok, err, arith, ◌++◌, ◌∷◌}
use se_sshion.Base.Decimal.{decimal}
use se_sshion.Base.Text.{codes, is_whitespace}
use se_sshion.Config.{parse_jump_endpoint, no_user_at_host, bad_port, empty_value}
use se_sshion.Config.Printed.{parse_jump_endpoint-printed}

parse_jump_endpoint-printed_example :
    parse_jump_endpoint (codes "me" ++ b'@' ∷ (codes "h1" ++ b':' ∷ decimal 2222))
    ≡ ok (codes "me", codes "h1", 2222)
parse_jump_endpoint-printed_example =
    unfold is_whitespace in
    parse_jump_endpoint-printed (codes "me") (codes "h1") 2222 refl refl
      ((refl, refl), ((refl, refl), tt)) ((refl, refl), ((refl, refl), tt)) (omega arith)
      (omega arith)

refused :
    (parse_jump_endpoint (codes "host") ≡ err no_user_at_host)
    × (parse_jump_endpoint (codes "a@b@c") ≡ err no_user_at_host)
    × (parse_jump_endpoint (codes "a@b:70000") ≡ err bad_port)
    × (parse_jump_endpoint (codes "a@b:0") ≡ err empty_value)
    × (parse_jump_endpoint (codes "a@b") ≡ ok (codes "a", codes "b", 22))
unfolding parse_jump_endpoint
refused = (refl, refl, refl, refl, refl)
