-- ===== src/Tracker.antt =====
-- heartbeat/heartbeat.go: the instances that the service knows, kept here and in Memorystore. Each
-- method runs under the tracker's lock where it touches the map, so a method is one step.
pub mod Signals
pub mod Invariant
pub mod Metrics
pub mod Origins
pub mod Steps
pub mod Laws
pub mod Refresh
pub mod Stored
pub mod RoundTrip
pub mod Replicas
use locate.Prelude.{
  ℕ, ◌*◌, ◌-◌, String, Bool, true, false, not, ◌&&◌, ◌||◌, Option, none, some, List, [], ◌∷◌, leb,
  if◌then◌else◌,
}
use locate.Prelude.Maps.{Map, lookup, insert, keys}
use locate.Api.{Registration, Health, Prometheus, HeartbeatMessage}
use locate.Host.{HostPackage}
use locate.Memorystore.{PutOptions}
use locate.Tracker.Signals.{construct_prometheus_message}

-- The value of a `Put`, with the field that it goes to.
pub data Field : Type 0 where
  registration : Registration → Field
  health : Health → Field
  prometheus : Prometheus → Field

-- `MemorystoreClient`: what a call leaves in the store, and whether it returned without an error.
pub record StoreClient : Type 1 where
  pub Store : Type 0
  pub put : String → Field → PutOptions → Store → Store × Bool
  -- `none` where it returns an error
  pub get_all : Store → Option (Map HeartbeatMessage)

pub data TrackerError : Type 0 where
  put_failed not_found prometheus_failed : TrackerError

pub record Tracker (C : StoreClient) : Type 0 where
  pub store : C.Store
  pub instances : Map HeartbeatMessage
  pub last_update : ℕ  -- nanoseconds since Go's zero time

-- `static.MemorystoreExportPeriod`, in nanoseconds
abbrev pub memorystore_export_period : ℕ
memorystore_export_period = 10 * 1_000_000_000

abbrev pub with_registration : Registration → Option HeartbeatMessage → HeartbeatMessage
with_registration rm none = record { health = none; registration = some rm; prometheus = none }
with_registration rm (some instance_) = record instance_ { registration = some rm }

module _ (C : StoreClient) where
  open C use {put, get_all}

  abbrev Outcome : Type 0
  Outcome = Tracker C × Option TrackerError

  -- `NewHeartbeatStatusTracker`, without the import loop
  unfoldable pub new_tracker : C.Store → Tracker C
  new_tracker store = record { store = store; instances = []; last_update = 0 }

  -- the method `registerInstance`
  unfoldable pub register_locally : String → Registration → Tracker C → Tracker C
  register_locally hostname rm t = record t {
    instances = insert hostname (with_registration rm (lookup hostname t.instances)) t.instances;
  }

  -- the rest of `RegisterInstance`, after the `Put`
  unfoldable pub register_after : Registration → Tracker C → C.Store × Bool → Outcome
  unfolding register_locally
  register_after rm t (store, false) = (record t { store = store }, some put_failed)
  register_after rm t (store, true) =
      (register_locally rm.hostname rm (record t { store = store }), none)

  unfoldable pub register_instance : Registration → Tracker C → Outcome
  unfolding register_after
  register_instance rm t = register_after rm t (
      put rm.hostname (registration rm) (record { field_must_exist = ""; with_expire = true })
        t.store)

  -- the method `updateHealth`, on the entry of the host name
  unfoldable pub update_health_locally :
      String → Health → Tracker C → Option HeartbeatMessage → Outcome
  update_health_locally hostname hm t none = (t, some not_found)
  update_health_locally hostname hm t (some found) = (
    record t { instances = insert hostname (record found { health = some hm }) t.instances },
    none,
  )

  unfoldable pub update_health_after : String → Health → Tracker C → C.Store × Bool → Outcome
  unfolding update_health_locally
  update_health_after hostname hm t (store, false) = (record t { store = store }, some put_failed)
  update_health_after hostname hm t (store, true) =
      update_health_locally hostname hm (record t { store = store }) (lookup hostname t.instances)

  unfoldable pub update_health : String → Health → Tracker C → Outcome
  unfolding update_health_after
  update_health hostname hm t = update_health_after hostname hm t (
      put hostname (health hm) (record { field_must_exist = "Registration"; with_expire = true })
        t.store)

  -- `updatePrometheusMessage`, after the `Put`; true where it succeeds
  unfoldable pub update_message_after :
      String → HeartbeatMessage → Prometheus → Tracker C → C.Store × Bool → Tracker C × Bool
  update_message_after hostname found pm t (store, false) = (record t { store = store }, false)
  update_message_after hostname found pm t (store, true) = (
    record t {
      store = store;
      instances = insert hostname (record found { prometheus = some pm }) t.instances;
    },
    true,
  )

  unfoldable pub update_prometheus_message :
      String → HeartbeatMessage → Prometheus → Tracker C → Tracker C × Bool
  unfolding update_message_after
  update_prometheus_message hostname found pm t = update_message_after hostname found pm t (
      put hostname (prometheus pm)
        (record { field_must_exist = "Registration"; with_expire = false }) t.store)

  -- One round of the loop of `UpdatePrometheus`: the entry at a key, as it is by then.
  unfoldable pub refresh_one :
      Option HeartbeatMessage → Option Prometheus → Tracker C × Bool → Tracker C × Bool
  unfolding update_prometheus_message
  refresh_one (some found) (some pm) (t, failed) = elim found.registration [
    | none ↦ (t, failed)
    | some r ↦
        let (t', done) = update_prometheus_message r.hostname found pm t in (t', failed || not done)
  ]
  refresh_one _ _ s = s

  module _ (H : HostPackage) (hostnames machines : Map Bool) where
    unfoldable pub message_for : Option HeartbeatMessage → Option Prometheus
    message_for none = none
    message_for (some found) = construct_prometheus_message H found hostnames machines

    -- The loop, over the keys in the order in which `range` gives them.
    unfoldable pub refresh : List String → Tracker C × Bool → Tracker C × Bool
    unfolding refresh_one message_for
    refresh [] s = s
    refresh (k ∷ ks) s =
        refresh ks (refresh_one (lookup k s.0.instances) (message_for (lookup k s.0.instances)) s)

    -- `order` is the order in which `range` walks the map.
    unfoldable pub update_prometheus : (List String → List String) → Tracker C → Outcome
    unfolding refresh
    update_prometheus order t =
        let (t', failed) = refresh (order (keys t.instances)) (t, false) in
        (t', if failed then some prometheus_failed else none)

  -- `importMemorystore` at the time `now`
  unfoldable pub import_values : ℕ → Tracker C → Option (Map HeartbeatMessage) → Tracker C
  import_values now t none = t
  import_values now t (some values) = record t { instances = values; last_update = now }

  unfoldable pub import_memorystore : ℕ → Tracker C → Tracker C
  unfolding import_values
  import_memorystore now t = import_values now t (get_all t.store)

  -- `Ready` at the time `now`
  unfoldable pub ready : ℕ → Tracker C → Bool
  ready now t = leb (now - t.last_update) (2 * memorystore_export_period)
