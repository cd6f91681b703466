-- ===== src/Ssh/HostKey.antt =====
-- internal/ssh/hostkey.go
use otel_forge.Prelude.{String, Option, none, some, str_eq, is_blank, if◌then◌else◌}
use otel_forge.Action.{
  Action, Result, ok, err, raise, pure, try, lift, ◌>>=◌, message, not_pinned, pin_failed,
  key_mismatch,
}

abbrev as_pin_failed : Result (Unit {0}) → Result (Unit {0})
as_pin_failed (ok _) = ok tt
as_pin_failed (err e) = err (pin_failed (message e))

abbrev pin_key : Option (String → Action (Unit {0})) → String → Action (Unit {0})
pin_key none fingerprint = raise not_pinned
pin_key (some pin) fingerprint = do r ← try (pin fingerprint); lift (as_pin_failed r)

-- The callback that it returns, at the fingerprint of the key that the server shows.
unfoldable pub verify_host_key :
    String → Option (String → Action (Unit {0})) → String → Action (Unit {0})
verify_host_key expected pin fingerprint =
    if is_blank expected
    then pin_key pin fingerprint
    else if str_eq fingerprint expected
    then pure tt
    else raise (key_mismatch fingerprint expected)
