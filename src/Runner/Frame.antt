-- ===== src/Runner/Frame.antt =====
-- What `Handle` leaves alone: the queues, and the keys of the rows.
use mathlib.Core.List.{append-nil, append_assoc}
use otel_forge.Prelude.{
  ℕ, ◌≡◌, refl, ◌∙◌, sym, ap, Bool, List, [], ◌∷◌, ◌++◌, map, map-update, update,
}
use otel_forge.Models.{Job, JobCheck, Event, Instance}
use otel_forge.Action.{World, Db, modify_db}
use otel_forge.Action.Rules.{Frame, Does, does_rules}

abbrev pub job_key : Job → ℕ × ℕ × ℕ
job_key j = (j.id, j.event_id, j.instance_id)

abbrev pub event_key : Event → ℕ × ℕ
event_key e = (e.id, e.owner_id)

abbrev pub instance_key : Instance → ℕ × ℕ
instance_key i = (i.id, i.owner_id)

-- The rows of both are the same but for columns that are no keys, and for checks of jobs, of which
-- there may be more.
pub record SameKeys (d d' : Db) : Type 0 where
  pub job_keys : map job_key d'.jobs ≡ map job_key d.jobs
  pub event_keys : map event_key d'.events ≡ map event_key d.events
  pub instance_keys : map instance_key d'.instances ≡ map instance_key d.instances
  pub users_same : d'.users ≡ d.users
  pub links_same : d'.event_instances ≡ d.event_instances
  pub new_checks : List JobCheck
  pub checks_then : d'.job_checks ≡ d.job_checks ++ new_checks

pub same_keys : (d : Db) → SameKeys d d
same_keys d = record {
  job_keys = refl;
  event_keys = refl;
  instance_keys = refl;
  users_same = refl;
  links_same = refl;
  new_checks = [];
  checks_then = sym (append-nil d.job_checks);
}

pub SameKeys-then : {d d1 d2 : Db} → SameKeys d d1 → SameKeys d1 d2 → SameKeys d d2
SameKeys-then {d} h k = record {
  job_keys = k.job_keys ∙ h.job_keys;
  event_keys = k.event_keys ∙ h.event_keys;
  instance_keys = k.instance_keys ∙ h.instance_keys;
  users_same = k.users_same ∙ h.users_same;
  links_same = k.links_same ∙ h.links_same;
  new_checks = h.new_checks ++ k.new_checks;
  checks_then =
      k.checks_then
      ∙ ap (λ cs. cs ++ k.new_checks) h.checks_then
      ∙ append_assoc d.job_checks h.new_checks k.new_checks;
}

pub record KeepsKeys (w w' : World) : Type 0 where
  pub ready_same : w'.ready ≡ w.ready
  pub dead_same : w'.dead ≡ w.dead
  pub keys_same : SameKeys w.db w'.db

pub KeepsKeys-Frame : Frame KeepsKeys
KeepsKeys-Frame = record {
  same = λ w. record { ready_same = refl; dead_same = refl; keys_same = same_keys w.db };
  then_ = λ u v w h k. record {
    ready_same = k.ready_same ∙ h.ready_same;
    dead_same = k.dead_same ∙ h.dead_same;
    keys_same = SameKeys-then h.keys_same k.keys_same;
  };
  counted = λ w n. record { ready_same = refl; dead_same = refl; keys_same = same_keys w.db };
}

pub modify_jobs :
    (p : Job → Bool) (f : Job → Job)
    → ((j : Job) → job_key (f j) ≡ job_key j)
    → Does KeepsKeys (modify_db (λ d. record d { jobs = update p f d.jobs }))
unfolding modify_db
modify_jobs p f h = record {
  at = λ env w. record {
    ready_same = refl;
    dead_same = refl;
    keys_same = record {
      job_keys = map-update job_key p f w.jobs h;
      event_keys = refl;
      instance_keys = refl;
      users_same = refl;
      links_same = refl;
      new_checks = [];
      checks_then = sym (append-nil w.job_checks);
    };
  };
}

pub modify_events :
    (p : Event → Bool) (f : Event → Event)
    → ((e : Event) → event_key (f e) ≡ event_key e)
    → Does KeepsKeys (modify_db (λ d. record d { events = update p f d.events }))
unfolding modify_db
modify_events p f h = record {
  at = λ env w. record {
    ready_same = refl;
    dead_same = refl;
    keys_same = record {
      job_keys = refl;
      event_keys = map-update event_key p f w.events h;
      instance_keys = refl;
      users_same = refl;
      links_same = refl;
      new_checks = [];
      checks_then = sym (append-nil w.job_checks);
    };
  };
}

pub modify_instances :
    (p : Instance → Bool) (f : Instance → Instance)
    → ((i : Instance) → instance_key (f i) ≡ instance_key i)
    → Does KeepsKeys (modify_db (λ d. record d { instances = update p f d.instances }))
unfolding modify_db
modify_instances p f h = record {
  at = λ env w. record {
    ready_same = refl;
    dead_same = refl;
    keys_same = record {
      job_keys = refl;
      event_keys = refl;
      instance_keys = map-update instance_key p f w.instances h;
      users_same = refl;
      links_same = refl;
      new_checks = [];
      checks_then = sym (append-nil w.job_checks);
    };
  };
}

pub append_check :
    (c : JobCheck)
    → Does KeepsKeys (modify_db (λ d. record d { job_checks = d.job_checks ++ c ∷ [] }))
unfolding modify_db
append_check c = record {
  at = λ env w. record {
    ready_same = refl;
    dead_same = refl;
    keys_same = record {
      job_keys = refl;
      event_keys = refl;
      instance_keys = refl;
      users_same = refl;
      links_same = refl;
      new_checks = c ∷ [];
      checks_then = refl;
    };
  };
}

pub ruleset frame_rules = (does_rules, KeepsKeys-Frame)
