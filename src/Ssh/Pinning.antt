-- ===== src/Ssh/Pinning.antt =====
-- Trust on first use: what the host-key check accepts, and what it writes.
use otel_forge.Prelude.{
  ℕ, ◌≡◌, refl, String, ◌&&◌, ◌==◌, Option, none, some, List, [], ◌∷◌, eq_iff, update, Option-cases,
  inl, inr, first, arith,
}
use otel_forge.Models.{Instance}
use otel_forge.Action.{Env, World, ok, ◌>>=◌}
use otel_forge.Store.Instances.{has_id, pinnable, update_instance_host_key_fingerprint}
use otel_forge.Ssh.HostKey.{verify_host_key}

-- The row after a pin: a free row takes the fingerprint, a pinned row keeps its own.
abbrev pub pinned_or : Option String → String → String
pinned_or none fp = fp
pinned_or (some old) fp = old

first-pin :
    (id : ℕ) (fp : String) (xs : List Instance) {i : Instance}
    → first (has_id id) xs ≡ some i
    → first (has_id id) (
        update
          (λ (i : Instance). i.id == id && pinnable fp i.ssh_host_key_fingerprint)
          (λ i. record i { ssh_host_key_fingerprint = some fp })
          xs)
      ≡ some
          (record i { ssh_host_key_fingerprint = some (pinned_or i.ssh_host_key_fingerprint fp) })
first-pin id fp [] h = cc
first-pin id fp (x ∷ xs) {i} h = elim (Option-cases x.ssh_host_key_fingerprint) [
  | inl unpinned ↦ ground (arith, first-pin id fp xs {i = i})
  | inr (old, pinned) ↦ ground (arith, eq_iff old fp, first-pin id fp xs {i = i})
]

-- With no fingerprint expected, as for an instance that was not pinned when its row was read, the
-- check accepts every key where the statement does not fail. It writes the fingerprint if the
-- instance has none, and leaves one that is there by now as it is.
pub first_use_pins :
    (id : ℕ) (fp : String) {i : Instance} (env : Env) (w : World)
    → env.fault w.calls ≡ none
    → first (has_id id) w.instances ≡ some i
    → let (r, w') = verify_host_key "" (some (update_instance_host_key_fingerprint id)) fp env w in
      (r ≡ ok tt)
      × (first (has_id id) w'.instances
          ≡ some (record i {
            ssh_host_key_fingerprint = some (pinned_or i.ssh_host_key_fingerprint fp);
          }))
unfolding verify_host_key update_instance_host_key_fingerprint ◌>>=◌
first_use_pins id fp {i} env w fine found = rw fine (refl, first-pin id fp w.instances found)
