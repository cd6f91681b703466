-- ===== src/Handlers/Ownership.antt =====
-- The handlers of instances change no instance of another user.
use otel_forge.Prelude.{
  ℕ, String, ◌≡◌, ◌∙◌, refl, Bool, true, not, ◌==◌, ==_refl, Option, List, [], ◌∷◌, ◌++◌, select,
  update, delete, arith,
}
use otel_forge.Prelude.Int.{ℤ}
use otel_forge.Models.{Bytes, User, Instance}
use otel_forge.Action.{World, modify_db}
use otel_forge.Action.Rules.{Frame, Does, Does-weaken, does_rules}
use otel_forge.Store.Instances.{
  owned_by, create_instance, update_ssh_statement, update_instance_ssh, delete_instance,
}
use otel_forge.Handlers.Instances.{
  InstanceDto, CreateInstanceRequest, UpdateInstanceRequest, encrypt_credential, or_reply,
  with_secrets, register, create, replace, bulk_row, bulk_rows, bulk_table, bulk_create,
}
use otel_forge.Handlers.Instances as Instances
use otel_forge.Handlers.Writes.{Writes, create-Does, update-Does, delete-Does, bulk_create-Does}

abbrev pub of_others : ℕ → Instance → Bool
of_others owner_id i = not (i.owner_id == owner_id)

-- The instances of the other users are the same, in the same order, and so are all other tables,
-- the queues and the commands sent.
pub record KeepsOthers (owner_id : ℕ) (w w' : World) : Type 0 where
  pub others_same :
      select (of_others owner_id) w'.instances ≡ select (of_others owner_id) w.instances
  pub users_same : w'.users ≡ w.users
  pub events_same : w'.events ≡ w.events
  pub jobs_same : w'.jobs ≡ w.jobs
  pub links_same : w'.event_instances ≡ w.event_instances
  pub checks_same : w'.job_checks ≡ w.job_checks
  pub ready_same : w'.ready ≡ w.ready
  pub dead_same : w'.dead ≡ w.dead
  pub sent_same : w'.sent ≡ w.sent

pub KeepsOthers-Frame : (owner_id : ℕ) → Frame (KeepsOthers owner_id)
KeepsOthers-Frame owner_id = record {
  same = λ w. record {
    others_same = refl;
    users_same = refl;
    events_same = refl;
    jobs_same = refl;
    links_same = refl;
    checks_same = refl;
    ready_same = refl;
    dead_same = refl;
    sent_same = refl;
  };
  then_ = λ u v w h k. record {
    others_same = k.others_same ∙ h.others_same;
    users_same = k.users_same ∙ h.users_same;
    events_same = k.events_same ∙ h.events_same;
    jobs_same = k.jobs_same ∙ h.jobs_same;
    links_same = k.links_same ∙ h.links_same;
    checks_same = k.checks_same ∙ h.checks_same;
    ready_same = k.ready_same ∙ h.ready_same;
    dead_same = k.dead_same ∙ h.dead_same;
    sent_same = k.sent_same ∙ h.sent_same;
  };
  counted = λ w n. record {
    others_same = refl;
    users_same = refl;
    events_same = refl;
    jobs_same = refl;
    links_same = refl;
    checks_same = refl;
    ready_same = refl;
    dead_same = refl;
    sent_same = refl;
  };
}

select-insert :
    (owner_id : ℕ) (i : Instance) (xs : List Instance)
    → i.owner_id == owner_id ≡ true
    → select (of_others owner_id) (xs ++ i ∷ []) ≡ select (of_others owner_id) xs
select-insert owner_id i [] h = rw h refl
select-insert owner_id i (x ∷ xs) h = ground (arith, select-insert owner_id i xs h)

select-update :
    (owner_id id : ℕ) (f : Instance → Instance) (xs : List Instance)
    → ((i : Instance) → (f i).owner_id ≡ i.owner_id)
    → select (of_others owner_id) (update (owned_by id owner_id) f xs)
      ≡ select (of_others owner_id) xs
select-update owner_id id f [] h = refl
select-update owner_id id f (x ∷ xs) h = ground (arith, h x, select-update owner_id id f xs h)

select-delete :
    (owner_id id : ℕ) (xs : List Instance)
    → select (of_others owner_id) (delete (owned_by id owner_id) xs)
      ≡ select (of_others owner_id) xs
select-delete owner_id id [] = refl
select-delete owner_id id (x ∷ xs) = ground (arith, select-delete owner_id id xs)

module _ (owner_id : ℕ) where
  insert_own :
      (i : Instance)
      → i.owner_id == owner_id ≡ true
      → Does
          (KeepsOthers owner_id)
          (modify_db (λ d. record d { instances = d.instances ++ i ∷ [] }))
  unfolding modify_db
  insert_own i h = record {
    at = λ env w. record {
      others_same = select-insert owner_id i w.instances h;
      users_same = refl;
      events_same = refl;
      jobs_same = refl;
      links_same = refl;
      checks_same = refl;
      ready_same = refl;
      dead_same = refl;
      sent_same = refl;
    };
  }

  update_own :
      (id : ℕ) (f : Instance → Instance)
      → ((i : Instance) → (f i).owner_id ≡ i.owner_id)
      → Does
          (KeepsOthers owner_id)
          (modify_db (λ d. record d { instances = update (owned_by id owner_id) f d.instances }))
  unfolding modify_db
  update_own id f h = record {
    at = λ env w. record {
      others_same = select-update owner_id id f w.instances h;
      users_same = refl;
      events_same = refl;
      jobs_same = refl;
      links_same = refl;
      checks_same = refl;
      ready_same = refl;
      dead_same = refl;
      sent_same = refl;
    };
  }

  delete_own :
      (id : ℕ)
      → Does
          (KeepsOthers owner_id)
          (modify_db (λ d. record d { instances = delete (owned_by id owner_id) d.instances }))
  unfolding modify_db
  delete_own id = record {
    at = λ env w. record {
      others_same = select-delete owner_id id w.instances;
      users_same = refl;
      events_same = refl;
      jobs_same = refl;
      links_same = refl;
      checks_same = refl;
      ready_same = refl;
      dead_same = refl;
      sent_same = refl;
    };
  }

  ruleset own_rules = (does_rules, KeepsOthers-Frame)

  create_instance-Own :
      (name host : String) (port : ℤ) (ssh_user : String) (pass_enc key_enc : Option Bytes)
      → Does
          (KeepsOthers owner_id)
          (create_instance owner_id name host port ssh_user pass_enc key_enc)
  unfolding create_instance
  create_instance-Own name host port ssh_user pass_enc key_enc =
      search (own_rules, insert_own, ==_refl) depth 20

  update_instance_ssh-Own :
      (id : ℕ) (ssh_user : String) (pass_enc key_enc : Option Bytes)
      → Does (KeepsOthers owner_id) (update_instance_ssh id owner_id ssh_user pass_enc key_enc)
  unfolding update_instance_ssh update_ssh_statement
  update_instance_ssh-Own id ssh_user pass_enc key_enc = search (own_rules, update_own) depth 14

  delete_instance-Own : (id : ℕ) → Does (KeepsOthers owner_id) (delete_instance id owner_id)
  unfolding delete_instance
  delete_instance-Own id = search (own_rules, delete_own) depth 14

  pub own-Writes : Writes (KeepsOthers owner_id) owner_id
  own-Writes = record {
    creates = create_instance-Own;
    updates = update_instance_ssh-Own;
    deletes = delete_instance-Own;
  }

-- The same for what this implies.
pub Writes-weaken :
    {R : World → World → Type 0} (owner_id : ℕ)
    → ((u v : World) → KeepsOthers owner_id u v → R u v)
    → Writes R owner_id
Writes-weaken owner_id h = record {
  creates = λ name host port ssh_user p k.
      Does-weaken _ h ((own-Writes owner_id).creates name host port ssh_user p k);
  updates = λ id ssh_user p k. Does-weaken _ h ((own-Writes owner_id).updates id ssh_user p k);
  deletes = λ id. Does-weaken _ h ((own-Writes owner_id).deletes id);
}

-- Whatever the request and whichever calls fail, the four handlers that write instances leave the
-- instances of the other users, all other tables, the checks of jobs among them, and the queues as
-- they were, and send no command to a node.
pub instances_keep_others :
    (key : Bytes) (user : User) (id : ℕ) (create_req : Option CreateInstanceRequest)
    (update_req : Option UpdateInstanceRequest) (csv : Option String)
    → Does (KeepsOthers user.id) (create key user create_req)
      × Does (KeepsOthers user.id) (Instances.update key user id update_req)
      × Does (KeepsOthers user.id) (Instances.delete user id)
      × Does (KeepsOthers user.id) (bulk_create key user csv)
instances_keep_others key user id create_req update_req csv = (
  create-Does user key (KeepsOthers-Frame user.id) (own-Writes user.id) create_req,
  update-Does user key (KeepsOthers-Frame user.id) (own-Writes user.id) id update_req,
  delete-Does user key (KeepsOthers-Frame user.id) (own-Writes user.id) id,
  bulk_create-Does user key (KeepsOthers-Frame user.id) (own-Writes user.id) csv,
)
