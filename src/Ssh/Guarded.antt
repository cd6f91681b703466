-- ===== src/Ssh/Guarded.antt =====
-- A node whose key is pinned is given commands only under that key.
use otel_forge.Prelude.{
  ◌+◌, ℕ, ◌≡◌, ◌≢◌, ◌∙◌, refl, ap, ◌⊎◌, inl, inr, String, Option, none, some, eq_iff, arith,
}
use otel_forge.Action.{
  Env, World, Dial, unreachable, presents, Action, Result, Error, ok, err, SessionEnd, no_session,
  exited, broken, ◌>>=◌, try, pure, raise, continue,
}
use otel_forge.Action.Rules.{Result-cases, Frame, Does, does_rules}
use otel_forge.Ssh.HostKey.{verify_host_key}
use otel_forge.Ssh.Client.{
  Config, auth_methods, handshake, connect, run_session, run_on, run_remote, run_script_on,
  run_script, test_connectivity, send, send_if_open, tested, Run,
}

record DbSame (w u : World) : Type 0 where
  same : u.db ≡ w.db

DbSame-Frame : Frame DbSame
DbSame-Frame = record {
  same = λ w. record { same = refl };
  then_ = λ u v w h k. record { same = k.same ∙ h.same };
  counted = λ w n. record { same = refl };
}

-- The node showed the pinned key and accepted the credentials.
abbrev pub IsTrusted : Config → Dial → Type 0
IsTrusted cfg d = d ≡ presents cfg.expected_host_key_fingerprint none

-- No table is changed, and a command has gone out only to a trusted node.
pub record IsGuarded (cfg : Config) (env : Env) (w u : World) : Type 0 where
  pub db_same : u.db ≡ w.db
  pub sent_only : (u.sent ≡ w.sent) ⊎ IsTrusted cfg (env.dial w.calls)

module _ (cfg : Config) (given : cfg.expected_host_key_fingerprint ≢ "") (env : Env) where
  handshake-IsTrusted :
      (d : Dial) (w : World)
      → ((handshake cfg d env w).1 ≡ w) × ((handshake cfg d env w).0 ≡ ok tt → IsTrusted cfg d)
  unfolding handshake verify_host_key ◌>>=◌
  handshake-IsTrusted (unreachable e) w = (refl, λ h. cc)
  handshake-IsTrusted (presents fp none) w = ground (
    arith,
    eq_iff cfg.expected_host_key_fingerprint "",
    eq_iff fp cfg.expected_host_key_fingerprint,
  )
  handshake-IsTrusted (presents fp (some e)) w = ground (
    arith,
    eq_iff cfg.expected_host_key_fingerprint "",
    eq_iff fp cfg.expected_host_key_fingerprint,
  )

  auth_same : (w : World) → (auth_methods cfg env w).1 ≡ w
  unfolding auth_methods ◌>>=◌
  auth_same w = ground arith

  -- A connection that stands is to a trusted node.
  record Connected (w : World) (r : Result (Unit {0})) (u : World) : Type 0 where
    db_same : u.db ≡ w.db
    sent_same : u.sent ≡ w.sent
    trusted : r ≡ ok tt → IsTrusted cfg (env.dial w.calls)

  connect-Connected : (w : World) → Connected w (connect cfg env w).0 (connect cfg env w).1
  unfolding connect ◌>>=◌
  connect-Connected w = elim (Result-cases (auth_methods cfg env w).0) [
    | inr (e, failed) ↦
        rw (failed, auth_same w) (record { db_same = refl; sent_same = refl; trusted = λ h. cc })
    | inl (_, done) ↦
        let (same, trusted) =
          handshake-IsTrusted (env.dial w.calls) (record w { calls = w.calls + 1 }) in
        rw (done, auth_same w)
          (record {
            db_same = ap (λ (w : World). w.db) same;
            sent_same = ap (λ (w : World). w.sent) same;
            trusted = trusted;
          })
  ]

  sends_db : (command : String) → Does DbSame (send command)
  unfolding send
  sends_db command = record { at = λ env w. record { same = refl } }

  send_if_open_db : (c : String) (s : SessionEnd) → Does DbSame (send_if_open c s)
  send_if_open_db c (no_session _) = search (does_rules, DbSame-Frame)
  send_if_open_db c (exited _ _ _) = sends_db c
  send_if_open_db c (broken _ _ _) = sends_db c

  run_session_db : (c : String) → Does DbSame (run_session c)
  unfolding run_session
  run_session_db c = search (does_rules, DbSame-Frame, send_if_open_db) depth 9

  run_on_db : (c : String) (r : Result (Unit {0})) → Does DbSame (run_on r c)
  unfolding run_on
  run_on_db c (ok _) = run_session_db c
  run_on_db c (err _) = search (does_rules, DbSame-Frame)

  run_script_on_db :
      (s : String) (c : Option String) (r : Result (Unit {0})) → Does DbSame (run_script_on r s c)
  unfolding run_script_on
  run_script_on_db s c (ok _) = search (does_rules, DbSame-Frame, run_session_db) depth 9
  run_script_on_db s c (err _) = search (does_rules, DbSame-Frame)

  -- What follows the attempt to connect, and does nothing where it has failed.
  attempt-IsGuarded :
      {A : Type 0} (m : Result (Unit {0}) → Action A)
      → ((r : Result (Unit {0})) → Does DbSame (m r))
      → ((e : Error) (u : World) → (m (err e) env u).1 ≡ u)
      → (w : World) → IsGuarded cfg env w ((try (connect cfg) >>= m) env w).1
  unfolding ◌>>=◌
  attempt-IsGuarded m db nothing w =
      let c = connect-Connected w in
      elim (Result-cases (connect cfg env w).0) [
        | inr (e, failed) ↦
            rw (failed, nothing e (connect cfg env w).1)
              (record { db_same = c.db_same; sent_only = inl c.sent_same })
        | inl (_, done) ↦ record {
          db_same = ((db (connect cfg env w).0).at env (connect cfg env w).1).same ∙ c.db_same;
          sent_only = inr (c.trusted done);
        }
      ]

  run_remote-IsGuarded : (c : String) (w : World) → IsGuarded cfg env w (run_remote cfg c env w).1
  unfolding run_remote run_on
  run_remote-IsGuarded c w =
      attempt-IsGuarded (λ r. run_on r c) (run_on_db c) (λ e u. unfold pure in refl) w

  tested_lem : (e : Option Error) (code : ℕ) (u : World) → (tested e code env u).1 ≡ u
  unfolding raise pure
  tested_lem none code u = ground arith
  tested_lem (some e) code u = refl

  -- With a fingerprint expected, neither the test of a node nor the run of a script changes a table,
  -- and either sends no command, or the node that it dialled has shown the key with that
  -- fingerprint and accepted the credentials, whatever the node answers and whichever calls fail.
  pub pinned_key_guards :
      (script : String) (config : Option String) (w : World)
      → IsGuarded cfg env w (test_connectivity cfg env w).1
        × IsGuarded cfg env w (run_script cfg script config env w).1
  unfolding run_script test_connectivity run_script_on ◌>>=◌
  pinned_key_guards script config w = (
    go (run_remote cfg "echo ok" env w).0 _ (run_remote-IsGuarded "echo ok" w),
    attempt-IsGuarded (λ r. run_script_on r script config) (run_script_on_db script config)
        (λ e u. unfold pure in refl) w,
  )
    where
      go :
          (r : Result Run) (u : World)
          → IsGuarded cfg env w u
          → IsGuarded cfg env w (continue r (λ r. tested r.error r.exit_code) env u).1
      go (err e) u h = h
      go (ok r) u h = rw (tested_lem r.error r.exit_code u) h
