-- ===== src/Workers/Start.antt =====
-- How the two servers start from the environment's variables.
use otel_forge.Prelude.{ℕ, String, Option}
use otel_forge.Prelude.Text.{bytes}
use otel_forge.Config.{Config}
use otel_forge.Database as Database
use otel_forge.Queue.Setup as Setup
use otel_forge.Server.{Settings}
use otel_forge.Server as Server

abbrev settings_of : (String → Option ℕ) → Config → Settings
settings_of parse_time c = record {
  jwt_secret = c.jwt_secret;
  encryption_key = bytes c.encryption_key;
  parse_time = parse_time;
}
