-- ===== src/Tracker/Steps.antt =====
-- The life of a tracker: any sequence of its operations.
use locate.Prelude.{ℕ, String, ◌≡◌, Bool, Option, some, List}
use locate.Prelude.Maps.{Map, lookup}
use locate.Api.{Registration, Health, HeartbeatMessage}
use locate.Host.{HostPackage}
use locate.Tracker.{
  StoreClient, Tracker, register_instance, update_health, update_prometheus, import_memorystore,
}

module _ (C : StoreClient) (H : HostPackage) where
  -- One call of a method, or one round of the import loop.
  pub data Step (t : Tracker C) : Tracker C → Type 0 where
    registers : (rm : Registration) → Step t (register_instance C rm t).0
    updates_health : (hostname : String) (hm : Health) → Step t (update_health C hostname hm t).0
    updates_prometheus :
        (hostnames machines : Map Bool) (order : List String → List String)
        → Step t (update_prometheus C H hostnames machines order t).0
    imports : (now : ℕ) → Step t (import_memorystore C now t)

  pub data Reach (s : Tracker C) : Tracker C → Type 0 where
    here : Reach s s
    next : {t u : Tracker C} → Reach s t → Step t u → Reach s u

  -- The tracker has been in a state in which Memorystore returned this registration under the key.
  abbrev pub WasImported : Tracker C → String → Option Registration → Type 0
  WasImported s k ro =
      (u : Tracker C) × Reach s u
      × (values : Map HeartbeatMessage) × (C.get_all u.store ≡ some values)
      × (v : HeartbeatMessage) × (lookup k values ≡ some v)
      × (v.registration ≡ ro)
