-- ===== src/Tests/Registrations.antt =====
-- The theorems on the registration of instances at concrete inputs.
use otel_forge.Prelude.{ℕ, ◌≡◌, refl, String, none, some, List, [], ◌∷◌, is_empty, arith}
use otel_forge.Prelude.Int.{pos}
use otel_forge.Prelude.Text.{bytes}
use otel_forge.Prelude.Atoi.{atoi, atoi_codes, parse_digits}
use otel_forge.Action.{ok, ◌>>=◌}
use otel_forge.Action.Rules.{Does}
use otel_forge.Crypto.{parse_key, encrypt}
use otel_forge.Store.Instances.{create_instance}
use otel_forge.Runner.{lacks_credentials, ssh_config}
use otel_forge.Handlers.Replies.{json}
use otel_forge.Handlers.Instances.{
  InstanceDto, CreateInstanceRequest, UpdateInstanceRequest, BulkResult, encrypt_credential,
  or_reply, or_default_port, with_secrets, register, create, bulk_row, bulk_rows, bulk_table,
  bulk_create,
}
use otel_forge.Handlers.Instances as Instances
use otel_forge.Handlers.Sealing.{Reads}
use otel_forge.Handlers.Registration.{Registered, create_registers}
use otel_forge.Handlers.Ownership.{KeepsOthers, instances_keep_others}
use otel_forge.Handlers.BulkRow.{Stored, bulk_row_registers}
use otel_forge.Handlers.Bulk.{AllStored, bulk_create_counts}
use otel_forge.Tests.Data.{calm, key, world, alice}
use otel_forge.Tests.Requests.{calm-SealsAndOpens}

abbrev new_node : CreateInstanceRequest
new_node = record {
  name = "node";
  host = "10.0.0.6";
  port = pos 0;
  ssh_user = "ubuntu";
  password = 7 ∷ [];
  private_key = [];
}

abbrev new_dto : InstanceDto
new_dto = record {
  id = 1;
  owner_id = 1;
  owner_email = "";
  name = "node";
  host = "10.0.0.6";
  port = pos 22;
  ssh_user = "ubuntu";
  created_at = 1;
}

created_now : (create key alice (some new_node) calm world).0 ≡ ok (json 201 new_dto)
unfolding create with_secrets encrypt_credential encrypt parse_key register create_instance or_reply
    ◌>>=◌
created_now = refl

abbrev created_code : ℕ
created_code = 201

create_registers_example :
    (created_code ≡ 201)
    × Registered calm key alice new_node world (create key alice (some new_node) calm world).1
create_registers_example =
    create_registers calm calm-SealsAndOpens (omega arith) key alice new_node world 201 new_dto
      created_now

instances_keep_others_example :
    Does (KeepsOthers 1) (create key alice (some new_node))
    × Does (KeepsOthers 1) (Instances.update key alice 5 none)
    × Does (KeepsOthers 1) (Instances.delete alice 5)
    × Does (KeepsOthers 1) (bulk_create key alice (some "csv"))
instances_keep_others_example = instances_keep_others key alice 5 (some new_node) none (some "csv")

row_now :
    (bulk_row key alice ("node" ∷ "10.0.0.6" ∷ "0" ∷ "ubuntu" ∷ "" ∷ []) calm world).0 ≡ ok new_dto
unfolding bulk_row encrypt parse_key create_instance atoi atoi_codes parse_digits ◌>>=◌
row_now = refl

bulk_row_registers_example :
    (s : Stored key alice calm new_dto world
      (bulk_row key alice ("node" ∷ "10.0.0.6" ∷ "0" ∷ "ubuntu" ∷ "" ∷ []) calm world).1)
    × (s.row.port ≡ or_default_port (atoi "0"))
    × Reads calm key s.row.ssh_password_enc (bytes "")
    × Reads calm key s.row.ssh_private_key_enc []
    × (lacks_credentials (ssh_config s.row (bytes "") []) ≡ is_empty (bytes ""))
bulk_row_registers_example =
    bulk_row_registers calm calm-SealsAndOpens (omega arith) key alice "node" "10.0.0.6" "0"
      "ubuntu" "" world new_dto row_now

abbrev one_created : BulkResult
one_created = record { created = 1; instances = new_dto ∷ []; errors = [] }

bulk_now : (bulk_create key alice (some "csv") calm world).0 ≡ ok (json 200 one_created)
unfolding bulk_create bulk_table bulk_rows bulk_row encrypt parse_key create_instance atoi
    atoi_codes parse_digits ◌>>=◌
bulk_now = refl

abbrev ok_code : ℕ
ok_code = 200

bulk_create_counts_example :
    (ok_code ≡ 200)
    × ((header : List String) × (rows : List (List String)) × (calm.read_csv "csv"
          ≡ some (header ∷ rows))
        × AllStored key alice calm rows
            (one_created.instances, one_created.errors)
            world
            (bulk_create key alice (some "csv") calm world).1)
bulk_create_counts_example = bulk_create_counts key alice "csv" calm world 200 one_created bulk_now
