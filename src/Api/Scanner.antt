-- ===== src/Api/Scanner.antt =====
-- api/v2/scanner.go: how a message is read from a reply of Redis.
use locate.Prelude.{String, ◌≡◌, Option, none, some}

-- encoding/json for a type: `json.Marshal`, `none` for an error, and `json.Unmarshal` into a zero value.
pub record Json (V : Type 0) : Type 0 where
  pub marshal : V → Option String
  pub unmarshal : String → Option V
  pub unmarshal-marshal : (v : V) (b : String) → marshal v ≡ some b → unmarshal b ≡ some v

-- A value in a reply, which may be of a type that is no text.
pub data Reply : Type 0 where
  bytes : String → Reply
  other_type : Reply

-- `RedisScan`, the same for `Registration`, `Health` and `Prometheus`; `none` is an error
unfoldable pub redis_scan : {V : Type 0} → Json V → Reply → Option V
redis_scan json (bytes b) = json.unmarshal b
redis_scan json other_type = none
