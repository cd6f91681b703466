-- ===== src/System/Keeping.antt =====
-- What keeps every job on an instance of the owner of its event.
use otel_forge.Prelude.{
  map-append, ℕ, ◌+◌, String, ◌≡◌, ◌∙◌, sym, subst, inl, inr, false, ◌&&◌, ◌||◌, Option, List, [],
  ◌∷◌, ◌++◌, map, All, All-map, ◌==◌, exists, delete, Bool-cases, Option-cases, arith,
}
use otel_forge.Prelude.Int.{ℤ}
use otel_forge.Models.{Bytes, Instance, Job}
use otel_forge.Action.{World, Db, Action, instance_not_found, modify_db, ◌>>=◌}
use otel_forge.Action.Rules.{Frame, Does, Does-require, does_rules}
use otel_forge.Store.Instances.{
  owned_by, create_instance, update_ssh_statement, update_instance_ssh, delete_instance,
}
use otel_forge.Service.Checks.{OnlyReads}
use otel_forge.Runner.Frame.{
  SameKeys, KeepsKeys, job_key, event_key, instance_key, modify_instances, frame_rules,
}
use otel_forge.System.Owners.{OneOwner, AllOneOwner, owner_of-append, owner_of-delete, delete_none}

pub record Keeps (w w' : World) : Type 0 where
  pub keeps : AllOneOwner w → AllOneOwner w'

pub Keeps-Frame : Frame Keeps
Keeps-Frame = record {
  same = λ w. record { keeps = λ a. a };
  then_ = λ u v w h k. record { keeps = λ a. k.keeps (h.keeps a) };
  counted = λ w n. record { keeps = λ a. a };
}

pub keys-Keeps : (w w' : World) → SameKeys w.db w'.db → Keeps w w'
keys-Keeps w w' k = record { keeps = λ a. rw (k.job_keys, k.event_keys, k.instance_keys) a }

pub db-Keeps : (w w' : World) → w'.db ≡ w.db → Keeps w w'
db-Keeps w w' same = record {
  keeps = λ a. subst (λ (d : Db). AllOneOwner (record w { db = d })) (sym same) a;
}

-- What `Handle` may do, keeps it.
pub Keeps-KeepsKeys : {A : Type 0} (m : Action A) → Does KeepsKeys m → Does Keeps m
Keeps-KeepsKeys m d = record { at = λ env w. keys-Keeps w (m env w).1 (d.at env w).keys_same }

pub Keeps-OnlyReads : {A : Type 0} (m : Action A) → Does OnlyReads m → Does Keeps m
Keeps-OnlyReads m d = record { at = λ env w. db-Keeps w (m env w).1 (d.at env w).db_same }

pub ruleset keeping = (does_rules, Keeps-Frame)

OneOwner-insert :
    (es is more : List (ℕ × ℕ)) (k : ℕ × ℕ × ℕ) → OneOwner es is k → OneOwner es (is ++ more) k
OneOwner-insert es is more k a = record {
  owner = a.owner;
  of_event = a.of_event;
  of_instance = owner_of-append k.2 is more a.of_instance;
}

insert_instance-Keeps :
    (i : Instance) → Does Keeps (modify_db (λ d. record d { instances = d.instances ++ i ∷ [] }))
unfolding modify_db
insert_instance-Keeps i = record {
  at = λ env w. record {
    keeps = λ a. rw (map-append instance_key w.instances (i ∷ [])) (
        All-map (map job_key w.jobs)
          (λ k.
            OneOwner-insert (map event_key w.events) (map instance_key w.instances)
              (instance_key i ∷ []) k)
          a);
  };
}

pub create_instance-Keeps :
    (owner_id : ℕ) (name host : String) (port : ℤ) (ssh_user : String)
    (pass_enc key_enc : Option Bytes)
    → Does Keeps (create_instance owner_id name host port ssh_user pass_enc key_enc)
unfolding create_instance
create_instance-Keeps owner_id name host port ssh_user pass_enc key_enc =
    search (keeping, insert_instance-Keeps) depth 20

update_instance-Keys :
    (id owner_id : ℕ) (ssh_user : String) (pass_enc key_enc : Option Bytes)
    → Does KeepsKeys (update_instance_ssh id owner_id ssh_user pass_enc key_enc)
unfolding update_instance_ssh update_ssh_statement
update_instance-Keys id owner_id ssh_user pass_enc key_enc =
    search (frame_rules, modify_instances) depth 14

pub update_instance_ssh-Keeps :
    (id owner_id : ℕ) (ssh_user : String) (pass_enc key_enc : Option Bytes)
    → Does Keeps (update_instance_ssh id owner_id ssh_user pass_enc key_enc)
update_instance_ssh-Keeps id owner_id ssh_user pass_enc key_enc =
    Keeps-KeepsKeys _ (update_instance-Keys id owner_id ssh_user pass_enc key_enc)

-- The jobs, none of which is on the instance.
OneOwner-delete :
    (es : List (ℕ × ℕ)) (is : List Instance) (id owner_id : ℕ) (jobs : List Job)
    → exists (λ (j : Job). j.instance_id == id) jobs ≡ false
    → All (OneOwner es (map instance_key is)) (map job_key jobs)
    → All (OneOwner es (map instance_key (delete (owned_by id owner_id) is))) (map job_key jobs)
OneOwner-delete es is id owner_id [] free a = tt
OneOwner-delete es is id owner_id (j ∷ jobs) free (a, rest) = (
  record {
    owner = a.owner;
    of_event = a.of_event;
    of_instance = owner_of-delete j.instance_id id owner_id is (ground arith) ∙ a.of_instance;
  },
  OneOwner-delete es is id owner_id jobs (ground arith) rest,
)

delete_statement-Keeps :
    (id owner_id : ℕ) (w : World) (n : ℕ)
    → exists (owned_by id owner_id) w.instances
        && (exists (λ (r : ℕ × ℕ). r.1 == id) w.event_instances
            || exists (λ (j : Job). j.instance_id == id) w.jobs)
      ≡ false
    → Keeps w (record w {
      db = record w.db { instances = delete (owned_by id owner_id) w.instances };
      calls = n;
    })
delete_statement-Keeps id owner_id w n free =
    elim (Bool-cases (exists (owned_by id owner_id) w.instances)) [
      | inr none_there ↦ record {
        keeps = λ a. rw (delete_none (owned_by id owner_id) w.instances none_there) a;
      }
      | inl there ↦ record {
        keeps = λ a.
            OneOwner-delete (map event_key w.events) w.instances id owner_id w.jobs (ground arith)
              a;
      }
    ]

pub delete_instance-Keeps : (id owner_id : ℕ) → Does Keeps (delete_instance id owner_id)
unfolding delete_instance ◌>>=◌
delete_instance-Keeps id owner_id = record {
  at = λ env w.
      let referenced =
        exists (λ (r : ℕ × ℕ). r.1 == id) w.event_instances
        || exists (λ (j : Job). j.instance_id == id) w.jobs in
      elim (Option-cases (env.fault w.calls)) [
        | inr (s, failed) ↦ rw failed (record { keeps = λ a. a })
        | inl fine ↦ elim (Bool-cases (exists (owned_by id owner_id) w.instances && referenced)) [
          | inl blocked ↦ rw (fine, blocked) (record { keeps = λ a. a })
          | inr free ↦
              rw (fine, free)
                (let u = record w {
                  db = record w.db { instances = delete (owned_by id owner_id) w.instances };
                  calls = w.calls + 1;
                } in
                  Keeps-Frame.then_ w u _ (delete_statement-Keeps id owner_id w (w.calls + 1) free)
                    ((Does-require (exists (owned_by id owner_id) w.instances) instance_not_found
                        Keeps-Frame).at
                      env u))
        ]
      ];
}
