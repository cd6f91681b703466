-- ===== src/Runner/Effects/Session.antt =====
-- What the secrets and the SSH client do to the world, by what the pin of a host key and a command
-- do to it.
use otel_forge.Prelude.{ℕ, String, inl, inr, Option, none, some, [], ◌∷◌, Option-cases}
use otel_forge.Models.{Bytes, TaskType, Instance}
use otel_forge.Action.{
  World, Result, Error, ok, err, Dial, unreachable, presents, SessionEnd, no_session, exited,
  broken,
}
use otel_forge.Action.Rules.{Frame, Does, does_rules}
use otel_forge.Crypto.{decrypt}
use otel_forge.Store.Instances.{update_instance_host_key_fingerprint}
use otel_forge.Tasks.{script_for}
use otel_forge.Ssh.HostKey.{verify_host_key}
use otel_forge.Ssh.Client.{
  Config, auth_methods, handshake, connect, send, run_session, run_on, run_remote, run_script_on,
  run_script, test_connectivity, send_if_open, tested,
}
use otel_forge.Runner.{decrypt_column, ssh_config}

-- The calls of a session that change something.
pub record SessionCalls (R : World → World → Type 0) : Type 0 where
  pub frame : Frame R
  pub pins : (id : ℕ) (fp : String) → Does R (update_instance_host_key_fingerprint id fp)
  pub sends : (command : String) → Does R (send command)

module _ {R : World → World → Type 0} (calls : SessionCalls R) where
  pub session_frame : Frame R
  session_frame = calls.frame

  decrypt-Does : (c key : Bytes) → Does R (decrypt c key)
  unfolding decrypt
  decrypt-Does c key = search (does_rules, session_frame) depth 9

  pub decrypt_column-Does : (c : Option Bytes) (key : Bytes) → Does R (decrypt_column c key)
  unfolding decrypt_column
  decrypt_column-Does none key = search (does_rules, session_frame)
  decrypt_column-Does (some []) key = search (does_rules, session_frame)
  decrypt_column-Does (some (b ∷ bs)) key = decrypt-Does (b ∷ bs) key

  pub script_for-Does : (t : TaskType) → Does R (script_for t)
  unfolding script_for
  script_for-Does t = search (does_rules, session_frame) depth 9

  pin-Does : (id : ℕ) (fp : String) → Does R (update_instance_host_key_fingerprint id fp)
  pin-Does = calls.pins

  -- The callback of the configuration is the pin of the instance, or none.
  pub verify_host_key-Does :
      (inst : Instance) (pw pem : Bytes) (fp : String)
      → let cfg = ssh_config inst pw pem in
        Does R (verify_host_key cfg.expected_host_key_fingerprint cfg.pin_host_key fp)
  unfolding ssh_config verify_host_key
  verify_host_key-Does inst pw pem fp = elim (Option-cases inst.ssh_host_key_fingerprint) [
    | inl e ↦ rw e (search (does_rules, session_frame, pin-Does) depth 9)
    | inr (k, e) ↦ rw e (search (does_rules, session_frame) depth 9)
  ]

  auth_methods-Does : (cfg : Config) → Does R (auth_methods cfg)
  unfolding auth_methods
  auth_methods-Does cfg = search (does_rules, session_frame) depth 9

  send_if_open-Does : (c : String) (s : SessionEnd) → Does R (send_if_open c s)
  send_if_open-Does c (no_session _) = search (does_rules, session_frame)
  send_if_open-Does c (exited _ _ _) = calls.sends c
  send_if_open-Does c (broken _ _ _) = calls.sends c

  run_session-Does : (c : String) → Does R (run_session c)
  unfolding run_session
  run_session-Does c = search (does_rules, session_frame, send_if_open-Does) depth 9

  run_on-Does : (r : Result (Unit {0})) (c : String) → Does R (run_on r c)
  unfolding run_on
  run_on-Does (ok _) c = run_session-Does c
  run_on-Does (err e) c = search (does_rules, session_frame)

  run_script_on-Does :
      (r : Result (Unit {0})) (s : String) (c : Option String) → Does R (run_script_on r s c)
  unfolding run_script_on
  run_script_on-Does (ok _) s c = search (does_rules, session_frame, run_session-Does) depth 9
  run_script_on-Does (err e) s c = search (does_rules, session_frame)

-- The host-key check of the configuration is related too.
abbrev pub Checks : (R : World → World → Type 0) → Config → Type 0
Checks R cfg =
    (fp : String) → Does R (verify_host_key cfg.expected_host_key_fingerprint cfg.pin_host_key fp)

module _ {R : World → World → Type 0} (calls : SessionCalls R) (cfg : Config)
    (checked : Checks R cfg) where
  handshake-Does : (d : Dial) → Does R (handshake cfg d)
  unfolding handshake
  handshake-Does (unreachable e) = let frame = calls.frame in search does_rules
  handshake-Does (presents fp none) = let frame = calls.frame in search (does_rules, checked)
  handshake-Does (presents fp (some e)) = let frame = calls.frame in search (does_rules, checked)

  connect-Does : Does R (connect cfg)
  unfolding connect
  connect-Does =
      let frame = calls.frame in
      let methods = auth_methods-Does calls cfg in search (does_rules, handshake-Does) depth 9

  pub run_script-Does : (s : String) (c : Option String) → Does R (run_script cfg s c)
  unfolding run_script
  run_script-Does s c =
      let frame = calls.frame in
      let runs = run_script_on-Does calls in search (does_rules, connect-Does) depth 9

  tested-Does : (e : Option Error) (code : ℕ) → Does R (tested e code)
  tested-Does none code = let frame = calls.frame in search does_rules
  tested-Does (some e) code = let frame = calls.frame in search does_rules

  pub test_connectivity-Does : Does R (test_connectivity cfg)
  unfolding test_connectivity run_remote
  test_connectivity-Does =
      let frame = calls.frame in
      let runs = run_on-Does calls in search (does_rules, connect-Does, tested-Does) depth 9
