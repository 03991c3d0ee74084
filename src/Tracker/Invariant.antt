-- ===== src/Tracker/Invariant.antt =====
-- Every instance is registered, under its own host name.
use locate.Prelude.{
  String, ◌≡◌, refl, ◌∙◌, Bool, true, false, Option, none, some, ◌==◌, eq_iff, if◌then◌else◌,
}
use locate.Prelude.Maps.{Map, lookup, insert, lookup-insert, lookup-nil}
use locate.Api.{Registration, Health, HeartbeatMessage}
use locate.Tracker.{
  registration, health, StoreClient, Tracker, with_registration, new_tracker, register_after,
  register_instance, update_health_locally, update_health_after, update_health,
}

-- The entry is registered with that host name.
abbrev pub IsOwn : String → Option HeartbeatMessage → Type 0
IsOwn k none = Unit
IsOwn k (some v) = (r : Registration) × (v.registration ≡ some r) × (r.hostname ≡ k)

pub record IsKeyed (m : Map HeartbeatMessage) : Type 0 where
  pub own : (k : String) → IsOwn k (lookup k m)

pub insert-IsKeyed :
    (k : String) (v : HeartbeatMessage) (m : Map HeartbeatMessage)
    → IsOwn k (some v)
    → IsKeyed m
    → IsKeyed (insert k v m)
insert-IsKeyed k v m h keyed = record { own = λ j. rw lookup-insert (go j (k == j) (eq_iff k j).0) }
  where
    go : (j : String) (b : Bool) → (b ≡ true → k ≡ j) → IsOwn j (if b then some v else lookup j m)
    go j true e = (h.0, h.1, h.2 ∙ e refl)
    go j false e = keyed.own j

module _ (C : StoreClient) where
  pub new_tracker-IsKeyed : (store : C.Store) → IsKeyed (new_tracker C store).instances
  unfolding new_tracker
  new_tracker-IsKeyed store = record { own = λ k. rw (lookup-nil k) tt }

  -- What `RegisterInstance` adds is registered under its own host name.
  pub register_instance-IsKeyed :
      (rm : Registration) (t : Tracker C)
      → IsKeyed t.instances
      → IsKeyed (register_instance C rm t).0.instances
  unfolding register_instance
  register_instance-IsKeyed rm t h = go (
      C.put rm.hostname (registration rm) (record { field_must_exist = ""; with_expire = true })
        t.store)
    where
      entry : (o : Option HeartbeatMessage) → IsOwn rm.hostname (some (with_registration rm o))
      entry none = (rm, refl, refl)
      entry (some v) = (rm, refl, refl)

      go : (p : C.Store × Bool) → IsKeyed (register_after C rm t p).0.instances
      go (store, false) = h
      go (store, true) =
          insert-IsKeyed rm.hostname _ t.instances (entry (lookup rm.hostname t.instances)) h

  pub update_health-IsKeyed :
      (hostname : String) (hm : Health) (t : Tracker C)
      → IsKeyed t.instances
      → IsKeyed (update_health C hostname hm t).0.instances
  unfolding update_health
  update_health-IsKeyed hostname hm t h = go (
      C.put hostname (health hm) (record { field_must_exist = "Registration"; with_expire = true })
        t.store)
    where
      found :
          (store : C.Store) (o : Option HeartbeatMessage)
          → IsOwn hostname o
          → IsKeyed (update_health_locally C hostname hm (record t { store = store }) o).0.instances
      found store none own = h
      found store (some v) own = insert-IsKeyed hostname _ t.instances own h

      go : (p : C.Store × Bool) → IsKeyed (update_health_after C hostname hm t p).0.instances
      go (store, false) = h
      go (store, true) = found store (lookup hostname t.instances) (h.own hostname)
