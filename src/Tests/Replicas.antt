-- ===== src/Tests/Replicas.antt =====
-- Two replicas over a small Redis.
use native.Mathlib.Decide.{ℕ_discrete}
use mathlib.Core.List.{List-discrete}
use locate.Prelude.{
  ℕ, String, ◌≡◌, refl, inl, inr, true, Option, none, some, List, [], ◌∷◌, ◌==◌, eq_iff, Result, ok,
  Bool-cases, if◌then◌else◌, arith, ==_refl, ◌&&◌, ap, sym,
}
use locate.Prelude.Maps.{
  Map, lookup, contains, insert, erase, lookup-insert, lookup-erase, lookup-nil, keys,
}
use locate.Memorystore.{Redis, delivered, PutOptions, put}
use locate.Float.{Float64}
use locate.Api.{Registration, Health, Prometheus, HeartbeatMessage}
use locate.Api.Scanner.{Json}
use locate.Tracker.{
  registration as registration_field, Tracker, register_instance, register_after, register_locally,
  import_memorystore,
}
use locate.Tracker.Stored.{
  Codecs, field_name, marshal, scan_field, scan_message, Redigo, get, put_field, put_remote,
}
use locate.Tracker.RoundTrip.{with_field, get-put_field}
use locate.Tracker.Replicas.{Client, IsShared, register_instance-IsShared}
use locate.Memorystore.Scan.{GetAllError, Pages}
use locate.Tests.Samples.{registration, half}

String-discrete : Discrete String
String-discrete s t = elim (Bool-cases (s == t)) [
  | inl e ↦ yes ((eq_iff s t).0 e)
  | inr e ↦ no (λ p. let q = (eq_iff s t).1 p in cc)
]

Float64-discrete : Discrete Float64
Float64-discrete = hlevel (ℕ_discrete)

Registration-discrete : Discrete Registration
Registration-discrete = hlevel (Float64-discrete, String-discrete, List-discrete)

Health-discrete : Discrete Health
Health-discrete = hlevel (Float64-discrete)

Prometheus-discrete : Discrete Prometheus
Prometheus-discrete = hlevel

abbrev or_nil : Option (Map String) → Map String
or_nil none = []
or_nil (some m) = m

abbrev Hashes : Type 0
Hashes = Map (Map String) × (String → Option ℕ)

abbrev read : Hashes → String → String → Option String
read db k f = lookup f (or_nil (lookup k db.0))

abbrev write : String → String → String → Hashes → Hashes
write k f v db = (insert k (insert f v (or_nil (lookup k db.0))) db.0, db.1)

read-write :
    (k f v k' f' : String) (db : Hashes)
    → read (write k f v db) k' f' ≡ (if (k == k') && (f == f') then some v else read db k' f')
read-write k f v k' f' db = ground (
  arith,
  lookup-insert k k' (insert f v (or_nil (lookup k db.0))) db.0,
  lookup-insert f f' v (or_nil (lookup k db.0)),
  eq_iff k k',
  eq_iff f f',
)

read-erase :
    (k k' f' : String) (db : Hashes)
    → read (erase k db.0, db.1) k' f' ≡ (if k == k' then none else read db k' f')
read-erase k k' f' db =
    ground (arith, lookup-erase k k' db.0, eq_iff k k', lookup-nil {V = String} f')

abbrev listed_redis : Redis
listed_redis = record {
  Db = Hashes;
  hget = read;
  ttl = λ db. db.1;
  hset = write;
  expire = λ k n db. (db.0, λ k'. if k == k' then some n else db.1 k');
  del = λ k db. (erase k db.0, db.1);
  hget-hset = read-write;
  hget-expire = λ k n k' f' db. refl;
  ttl-expire = λ k n f v db h. rw (==_refl k) refl;
  hget-del = read-erase;
}

-- An encoding that knows one value.
module _ {V : Type 0} (discrete : Discrete V) (value : V) where
  encode : (v : V) → Dec (v ≡ value) → Option String
  encode v (yes e) = some "json"
  encode v (no n) = none

  decode : (v : V) (d : Dec (v ≡ value)) (b : String) → encode v d ≡ some b → some value ≡ some v
  unfolding encode
  decode v (yes e) b h = ap some (sym e)
  decode v (no n) b h = cc

  abbrev only : Json V
  only = record {
    marshal = λ v. encode v (discrete v value);
    unmarshal = λ b. some value;
    unmarshal-marshal = λ v b h. decode v (discrete v value) b h;
  }

  encode-value : (d : Dec (value ≡ value)) → encode value d ≡ some "json"
  unfolding encode
  encode-value (yes e) = refl
  encode-value (no n) = absurd (n refl)

abbrev codecs : Codecs
codecs = record {
  registrations = only Registration-discrete (registration "near" "lga02" half);
  healths = only Health-discrete (record { score = half });
  prometheuses = only Prometheus-discrete (record { health = true });
}

abbrev redigo : Redigo listed_redis codecs
redigo = record {
  hgetall = λ db key. or_nil (lookup key db.0);
  scan_struct = λ values. scan_message codecs (λ field. lookup field values);
  lookup-hgetall = λ db key field. refl;
  scan_struct_lem = λ values. refl;
}

abbrev near_registration : Registration
near_registration = registration "near" "lga02" half

abbrev expiring : PutOptions
expiring = record { field_must_exist = ""; with_expire = true }

abbrev empty_redis : Hashes
empty_redis = ([], λ k. none)

abbrev written : Hashes
written = (("near", ("Registration", "json") ∷ []) ∷ [], λ k. if "near" == k then some 30 else none)

abbrev nothing : HeartbeatMessage
nothing = record { health = none; registration = none; prometheus = none }

put_field_lem :
    put_field listed_redis codecs redigo delivered delivered "near"
      (registration_field near_registration)
      expiring
      empty_redis
    ≡ (written, none)
unfolding put_field put marshal insert lookup field_name
put_field_lem =
    rw
      (encode-value Registration-discrete near_registration
        (Registration-discrete near_registration near_registration))
      refl

nothing_lem : get listed_redis codecs redigo empty_redis "near" ≡ some nothing
unfolding get scan_message lookup scan_field
nothing_lem = refl

get-put_field_example :
    get listed_redis codecs redigo written "near"
    ≡ some (record nothing { registration = some near_registration })
unfolding with_field
get-put_field_example =
    get-put_field listed_redis codecs redigo delivered delivered "near"
      (registration_field near_registration) expiring empty_redis written nothing put_field_lem
      nothing_lem "near"

abbrev scan_once : Hashes → ℕ → Result GetAllError (ℕ × List String)
scan_once db cursor = ok (0, keys db.0)

abbrev TwoReplicas : Type 0
TwoReplicas = Tracker (Client listed_redis codecs redigo scan_once 1)

abbrev first_replica : TwoReplicas
first_replica = record {
  store = record { db = empty_redis; networks = [] };
  instances = [];
  last_update = 0;
}

abbrev after_registration : TwoReplicas
after_registration = record {
  store = record { db = written; networks = [] };
  instances = ("near", record nothing { registration = some near_registration }) ∷ [];
  last_update = 0;
}

abbrev second_replica : TwoReplicas
second_replica = record first_replica { store = record { db = written; networks = [] } }

registered_lem :
    register_instance
      (Client listed_redis codecs redigo scan_once 1)
      near_registration
      first_replica
    ≡ (after_registration, none)
unfolding register_instance register_after register_locally put_remote put_field put marshal insert
    lookup field_name
registered_lem =
    rw
      (encode-value Registration-discrete near_registration
        (Registration-discrete near_registration near_registration))
      refl

register_instance-IsShared_example :
    IsShared listed_redis codecs redigo scan_once 1
      ("near" ∷ [])
      "near"
      (record nothing { registration = some near_registration })
      7
      second_replica
      (import_memorystore (Client listed_redis codecs redigo scan_once 1) 7 second_replica)
unfolding keys contains
register_instance-IsShared_example =
    register_instance-IsShared listed_redis codecs redigo scan_once 1 near_registration
      first_replica after_registration second_replica nothing 7 1 ("near" ∷ []) registered_lem
      nothing_lem refl (Pages.last refl) (omega arith) refl
