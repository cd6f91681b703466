-- ===== src/Ssh/Client.antt =====
-- internal/ssh/client.go
use otel_forge.Prelude.{
  ℕ, String, Option, none, some, List, [], ◌∷◌, ◌++◌, ◌==◌, is_empty, if◌then◌else◌,
}
use otel_forge.Prelude.Int.{ℤ}
use otel_forge.Prelude.Text.{◌⧺◌, itoa}
use otel_forge.Models.{Bytes}
use otel_forge.Action.{
  Env, Action, Result, ok, err, Error, driver, message, Dial, unreachable, presents, SessionEnd,
  no_session, exited, broken, raise, pure, lift, try, tick, get_env, ◌>>=◌, ◌>>◌, parse_private_key,
  no_credentials, test_exit,
}
use otel_forge.Ssh.HostKey.{verify_host_key}

-- An empty `expected_host_key_fingerprint`, and a nil callback, are as in the source.
pub record Config : Type 0 where
  pub host : String
  pub port : ℤ
  pub user : String
  pub password : Bytes
  pub private_key_pem : Bytes
  pub expected_host_key_fingerprint : String
  pub pin_host_key : Option (String → Action (Unit {0}))

pub data AuthMethod : Type 0 where
  public_keys password : Bytes → AuthMethod

abbrev key_method : Bytes → Option String → Result (List AuthMethod)
key_method pem none = ok (public_keys pem ∷ [])
key_method pem (some e) = err (parse_private_key e)

abbrev some_method : List AuthMethod → Result (List AuthMethod)
some_method [] = err no_credentials
some_method (m ∷ ms) = ok (m ∷ ms)

unfoldable pub auth_methods : Config → Action (List AuthMethod)
auth_methods cfg = do
  env ← get_env
  keys ← lift (
      if is_empty cfg.private_key_pem
      then ok []
      else key_method cfg.private_key_pem (env.key_error cfg.private_key_pem))
  lift (
      some_method
        (keys ++ (if is_empty cfg.password then [] else AuthMethod.password cfg.password ∷ [])))

-- The server's answer, once it has accepted or refused the credentials.
abbrev authenticated : Option String → Action (Unit {0})
authenticated none = pure tt
authenticated (some e) = raise (driver e)

unfoldable pub handshake : Config → Dial → Action (Unit {0})
handshake cfg (unreachable e) = raise (driver e)
handshake cfg (presents fingerprint answer) = do
  verify_host_key cfg.expected_host_key_fingerprint cfg.pin_host_key fingerprint
  authenticated answer

unfoldable pub connect : Config → Action (Unit {0})
connect cfg = do auth_methods cfg; n ← tick; env ← get_env; handshake cfg (env.dial n)

-- The four results of a remote run: they are all there beside an error.
pub record Run : Type 0 where
  pub stdout : String
  pub stderr : String
  pub exit_code : ℕ
  pub error : Option Error

abbrev pub run_of : SessionEnd → Run
run_of (no_session e) = record { stdout = ""; stderr = e; exit_code = 1; error = some (driver e) }
run_of (exited out errors code) = record {
  stdout = out;
  stderr = errors;
  exit_code = code;
  error = none;
}
run_of (broken out errors e) = record {
  stdout = out;
  stderr = errors;
  exit_code = 1;
  error = some (driver e);
}

-- `session.Run`: the command goes out.
unfoldable pub send : String → Action (Unit {0})
send command env w = (ok tt, record w { sent = w.sent ++ command ∷ [] })

abbrev pub send_if_open : String → SessionEnd → Action (Unit {0})
send_if_open command (no_session _) = pure tt
send_if_open command (exited _ _ _) = send command
send_if_open command (broken _ _ _) = send command

unfoldable pub run_session : String → Action Run
run_session command = do
  n ← tick
  env ← get_env
  send_if_open command (env.session n command)
  pure (run_of (env.session n command))

unfoldable pub run_on : Result (Unit {0}) → String → Action Run
run_on (ok _) command = run_session command
run_on (err e) command =
    pure (record { stdout = ""; stderr = message e; exit_code = 1; error = some e })

unfoldable pub run_remote : Config → String → Action Run
run_remote cfg command = do r ← try (connect cfg); run_on r command

-- The remote shell's input, for a directory named by the clock.
abbrev pub setup_command : String → String → String
setup_command dir script_b64 =
    "set -e\nmkdir -p " ⧺ dir ⧺ "\necho '" ⧺ script_b64 ⧺ "' | base64 -d > " ⧺ dir
    ⧺ "/task.sh\nchmod +x " ⧺ dir ⧺ "/task.sh"

unfoldable pub script_command : Env → ℕ → String → Option String → String
script_command env time script none =
    let dir = "/tmp/otelforge-" ⧺ itoa time in
    setup_command dir (env.base64 script) ⧺ "\nbash " ⧺ dir ⧺ "/task.sh"
script_command env time script (some config) =
    let dir = "/tmp/otelforge-" ⧺ itoa time in
    setup_command dir (env.base64 script)
    ⧺ "\necho '"
    ⧺ env.base64 config
    ⧺ "' | base64 -d > "
    ⧺ dir
    ⧺ "/config.yaml\nbash "
    ⧺ dir
    ⧺ "/task.sh "
    ⧺ dir
    ⧺ "/config.yaml"

-- The clock is read once the connection stands.
unfoldable pub run_script_on : Result (Unit {0}) → String → Option String → Action Run
run_script_on (ok _) script config_content = do
  n ← tick
  env ← get_env
  run_session (script_command env (env.now n) script config_content)
run_script_on (err e) script config_content =
    pure (record { stdout = ""; stderr = message e; exit_code = 1; error = some e })

unfoldable pub run_script : Config → String → Option String → Action Run
run_script cfg script config_content = do
  r ← try (connect cfg)
  run_script_on r script config_content

abbrev pub tested : Option Error → ℕ → Action (Unit {0})
tested (some e) code = raise e
tested none code = if code == 0 then pure tt else raise (test_exit code)

unfoldable pub test_connectivity : Config → Action (Unit {0})
test_connectivity cfg = do r ← run_remote cfg "echo ok"; tested r.error r.exit_code
