-- ===== src/Tests/Data.antt =====
-- An environment and tables to run the model on.
use otel_forge.Pool.{Pool}
use otel_forge.Runner.Liveness.{NothingFails}
use otel_forge.Prelude.{refl, false, Option, none, some, [], ◌∷◌, str_eq}
use otel_forge.Service.{CreateInput}
use otel_forge.Prelude.Int.{pos}
use otel_forge.Prelude.Text.{◌⧺◌}
use otel_forge.Models.{Bytes, User, Role, Instance, Event, EventStatus, Job, JobStatus, TaskType}
use otel_forge.Action.{Claims, Env, World, Db, Delivery, JobMessage, presents, exited}

abbrev open_box : Bytes → Option Bytes
open_box [] = none
open_box (_ ∷ plaintext) = some plaintext

abbrev pub alice_claims : Claims
alice_claims = record {
  email = "alice";
  role = Role.user;
  subject = 1;
  expires_at = 100;
  issued_at = 0;
}

-- Every node shows the key "SHA256:node" and runs what it is given; no statement fails.
abbrev pub calm : Env
calm = record {
  fault = λ n. none;
  now = λ n. n;
  fresh = λ n. n;
  random = λ n. 1 ∷ 2 ∷ [];
  dial = λ n. presents "SHA256:node" none;
  session = λ n command. exited "ok" "" 0;
  ilike = λ text pattern. str_eq ("%" ⧺ text ⧺ "%") pattern;
  nonce_size = 2;
  gcm_seal = λ key nonce plaintext. 9 ∷ plaintext;
  gcm_open = λ key nonce ciphertext. open_box ciphertext;
  sha256_hex = λ s. s;
  yaml_error = λ s. none;
  key_error = λ s. none;
  base64 = λ s. s;
  read_script = λ name. some name;
  sign_token = λ secret claims. some "token";
  read_token = λ keys time token. some alice_claims;
  bcrypt_hash = λ n plain. some plain;
  bcrypt_matches = λ hash plain. str_eq hash plain;
  read_csv = λ s. some ((s ∷ []) ∷ ("node" ∷ "10.0.0.6" ∷ "0" ∷ "ubuntu" ∷ "pw" ∷ []) ∷ []);
}

pub calm-NothingFails : NothingFails calm
calm-NothingFails = record { none_fails = λ n. refl; statuses_fit = λ n c. refl }

-- Every statement fails.
abbrev pub broken_db : Env
broken_db = record calm { fault = λ n. some "connection refused" }

abbrev pub key : Bytes
key =
    1 ∷ 2 ∷ 3 ∷ 4 ∷ 5 ∷ 6 ∷ 7 ∷ 8 ∷ 9 ∷ 10 ∷ 11 ∷ 12 ∷ 13 ∷ 14 ∷ 15 ∷ 16 ∷ 17 ∷ 18 ∷ 19 ∷ 20 ∷ 21
    ∷ 22 ∷ 23 ∷ 24 ∷ 25 ∷ 26 ∷ 27 ∷ 28 ∷ 29 ∷ 30 ∷ 31 ∷ 32 ∷ []

abbrev pub alice : User
alice = record { id = 1; email = "alice"; password_hash = ""; role = Role.user; created_at = 0 }

abbrev pub node : Instance
node = record {
  id = 5;
  owner_id = 1;
  name = "node";
  host = "10.0.0.5";
  port = pos 22;
  ssh_user = "ubuntu";
  ssh_password_enc = some (1 ∷ 2 ∷ 9 ∷ 7 ∷ []);
  ssh_private_key_enc = none;
  ssh_host_key_fingerprint = none;
  created_at = 0;
}

abbrev pub restart_all : Event
restart_all = record {
  id = 10;
  owner_id = 1;
  name = "restart";
  launcher_name = "alice";
  launcher_email = "alice";
  task_type = TaskType.restart;
  config_content = none;
  config_checksum = none;
  status = EventStatus.running;
  related_event_id = none;
  rollback_scope = none;
  total_jobs = 1;
  verified_count = 0;
  failed_count = 0;
  created_at = 0;
}

abbrev pub waiting : Job
waiting = record {
  id = 20;
  event_id = 10;
  instance_id = 5;
  status = JobStatus.queued;
  stdout = none;
  stderr = none;
  exit_code = none;
  started_at = none;
  finished_at = none;
}

abbrev pub tables : Db
tables = record {
  users = alice ∷ [];
  instances = node ∷ [];
  events = restart_all ∷ [];
  jobs = waiting ∷ [];
  job_checks = [];
  event_instances = (10, 5) ∷ [];
}

abbrev pub message_20 : JobMessage
message_20 = record { job_id = 20; event_id = 10; instance_id = 5; task_type = TaskType.restart }

abbrev pub delivery_20 : Delivery
delivery_20 = record { body = some message_20; headers = none }

abbrev pub world : World
world = record { db = tables; ready = delivery_20 ∷ []; dead = []; sent = []; calls = 0 }

-- A request to restart the collector of the node.
abbrev pub restart_node : CreateInput
restart_node = record {
  owner_id = 1;
  name = "restart";
  launcher_name = "alice";
  launcher_email = "alice";
  task_type = TaskType.restart;
  config_content = none;
  instance_ids = 5 ∷ [];
  related_event_id = none;
  rollback_scope = none;
}

-- Two goroutines, which wait.
abbrev pub at_rest : World → Pool
at_rest w = record {
  world = w;
  waiting = 2;
  unsettled = [];
  cut_off = [];
  returned = 0;
  stopping = false;
}
