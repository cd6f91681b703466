-- ===== src/Handlers/Replies.antt =====
-- api/internal/handlers/response.go: the answers of the handlers.
use otel_forge.Prelude.{ℕ, String}
use otel_forge.Action.{Result, ok, err, message}

-- A status with a value as JSON (`writeJSON`), with a text (`writeError`), or alone.
pub data Reply (A : Type 0) : Type 0 where
  json : ℕ → A → Reply A
  text : ℕ → String → Reply A
  status : ℕ → Reply A

-- `if err != nil { return writeError(…) }` and `return writeJSON(…)`
abbrev pub reply : {A : Type 0} → ℕ → ℕ → Result A → Reply A
reply good bad (ok a) = json good a
reply good bad (err e) = text bad (message e)
