-- ===== src/Tracker/Stored.antt =====
-- memorystore/client.go as the store of a tracker: `Put` of a message's part, `get`, and `GetAll`.
use locate.Prelude.{
  ℕ, String, ◌≡◌, Option, none, some, List, [], ◌∷◌, Result, ok, ◌>>=◌, true, false, Bool,
}
use locate.Prelude.Maps.{Map, lookup}
use locate.Api.{Registration, Health, Prometheus, HeartbeatMessage}
use locate.Api.Scanner.{Json, bytes, redis_scan}
use locate.Memorystore.{Redis, Network, delivered, PutError, PutOptions, put}
use locate.Memorystore.Scan.{GetAllError, get_all}
use locate.Tracker.{Field, registration, health, prometheus, StoreClient}

-- The encodings of the three parts of a message.
pub record Codecs : Type 0 where
  pub registrations : Json Registration
  pub healths : Json Health
  pub prometheuses : Json Prometheus

-- The field that `heartbeat.go` passes with each part.
unfoldable pub field_name : Field → String
field_name (registration r) = "Registration"
field_name (health h) = "Health"
field_name (prometheus p) = "Prometheus"

unfoldable pub marshal : Codecs → Field → Option String
marshal J (registration r) = J.registrations.marshal r
marshal J (health h) = J.healths.marshal h
marshal J (prometheus p) = J.prometheuses.marshal p

-- What is read for a pointer field: nil where the hash has no such field.
unfoldable pub scan_field : {V : Type 0} → Json V → Option String → Option (Option V)
unfolding redis_scan
scan_field json none = some none
scan_field json (some b) = redis_scan json (bytes b) >>= λ v. some (some v)

-- a message, where all three fields could be read
abbrev pub message_of :
    Option (Option Health)
    → Option (Option Registration)
    → Option (Option Prometheus)
    → Option HeartbeatMessage
message_of (some h) (some r) (some p) =
    some (record { health = h; registration = r; prometheus = p })
message_of _ _ _ = none

unfoldable pub scan_message : Codecs → (String → Option String) → Option HeartbeatMessage
unfolding scan_field
scan_message J read =
    message_of (scan_field J.healths (read "Health"))
      (scan_field J.registrations (read "Registration"))
      (scan_field J.prometheuses (read "Prometheus"))

-- The package redigo: HGETALL reads every field of a hash, and `redis.ScanStruct` reads each field of the
-- struct from the value under its name, with `RedisScan`.
pub record Redigo (R : Redis) (J : Codecs) : Type 0 where
  pub hgetall : R.Db → String → Map String
  pub scan_struct : Map String → Option HeartbeatMessage
  pub lookup-hgetall :
      (db : R.Db) (key field : String) → lookup field (hgetall db key) ≡ R.hget db key field
  pub scan_struct_lem :
      (values : Map String) → scan_struct values ≡ scan_message J (λ field. lookup field values)

-- the result of a scan that came to its end
abbrev pub finished :
    Option (Result GetAllError (Map HeartbeatMessage)) → Option (Map HeartbeatMessage)
finished (some (ok values)) = some values
finished _ = none

module _ (R : Redis) (J : Codecs) (P : Redigo R J) where
  -- `get` on a database that answers
  unfoldable pub get : R.Db → String → Option HeartbeatMessage
  get db key = P.scan_struct (P.hgetall db key)

  -- `Put` of a part of a message
  unfoldable pub put_field :
      Network → Network → String → Field → PutOptions → R.Db → R.Db × Option PutError
  put_field network network' key value opts db =
      put R network network' key (field_name value) (marshal J value) opts db

  -- The database with what becomes of the commands to come, two for each `Put`.
  pub record Remote : Type 0 where
    pub db : R.Db
    pub networks : List (Network × Network)

  abbrev pub succeeded : List (Network × Network) → R.Db × Option PutError → Remote × Bool
  succeeded rest (db, none) = (record { db = db; networks = rest }, true)
  succeeded rest (db, some e) = (record { db = db; networks = rest }, false)

  abbrev pub upcoming : List (Network × Network) → Network × Network
  upcoming [] = (delivered, delivered)
  upcoming (n ∷ ns) = n

  abbrev pub later : List (Network × Network) → List (Network × Network)
  later [] = []
  later (n ∷ ns) = ns

  unfoldable pub put_remote : String → Field → PutOptions → Remote → Remote × Bool
  unfolding put_field
  put_remote key value opts s =
      let (n, n') = upcoming s.networks in
      succeeded (later s.networks) (put_field n n' key value opts s.db)

  -- The client as the tracker's store; `scan` answers SCAN, and `GetAll` has fuel for as many replies.
  abbrev pub redis_client : (R.Db → ℕ → Result GetAllError (ℕ × List String)) → ℕ → StoreClient
  redis_client scan fuel = record {
    Store = Remote;
    put = put_remote;
    get_all = λ s. finished (get_all (scan s.db) (get s.db) fuel);
  }
