-- ===== src/Queue/RetryCount.antt =====
-- internal/queue/retry.go: the count of retries in a delivery's headers.
use otel_forge.Prelude.{
  String, ◌≡◌, refl, Option, none, some, List, [], ◌∷◌, str_eq, eq_iff, if◌then◌else◌, arith,
}
use otel_forge.Prelude.Int.{ℤ, pos}
use otel_forge.Action.{HeaderValue, int32, int64, int}

abbrev pub Table : Type 0
Table = List (String × HeaderValue)

abbrev pub retry_count_header : String
retry_count_header = "x-retry-count"

abbrev pub or_no_headers : Option Table → Table
or_no_headers none = []
or_no_headers (some t) = t

unfoldable pub lookup : String → Table → Option HeaderValue
lookup k [] = none
lookup k ((j, v) ∷ t) = if str_eq j k then some v else lookup k t

unfoldable pub insert : String → HeaderValue → Table → Table
insert k v [] = (k, v) ∷ []
insert k v ((j, u) ∷ t) = if str_eq j k then (k, v) ∷ t else (j, u) ∷ insert k v t

abbrev pub count_of : Option HeaderValue → ℤ
count_of (some (int32 n)) = n
count_of (some (int64 n)) = n
count_of (some (int n)) = n
count_of _ = pos 0

unfoldable pub delivery_retry_count : Option Table → ℤ
unfolding lookup
delivery_retry_count none = pos 0
delivery_retry_count (some headers) = count_of (lookup retry_count_header headers)

pub lookup-insert :
    (k j : String) (v : HeaderValue) (t : Table)
    → lookup j (insert k v t) ≡ (if str_eq k j then some v else lookup j t)
unfolding lookup insert
lookup-insert k j v [] = refl
lookup-insert k j v ((i, u) ∷ t) =
    ground (arith, eq_iff k j, eq_iff i k, eq_iff i j, lookup-insert k j v t)
