-- ===== src/Tracker/Origins.antt =====
-- Where the registrations of a tracker come from: each operation keeps those that it finds, or adds one
-- under its own host name.
use mathlib.Core.Path.{subst}
use locate.Prelude.{
  String, ◌≡◌, refl, ◌⊎◌, inl, inr, Bool, true, false, not, ◌||◌, Option, none, some, List, [], ◌∷◌,
  ◌==◌, eq_iff, if◌then◌else◌,
}
use locate.Prelude.Maps.{Map, lookup, insert, lookup-insert, lookup-nil, keys}
use locate.Api.{Registration, Health, Prometheus, HeartbeatMessage}
use locate.Host.{HostPackage}
use locate.Tracker.{
  registration, health, StoreClient, Tracker, with_registration, register_after, register_instance,
  update_health_locally, update_health_after, update_health, update_message_after,
  update_prometheus_message, refresh_one, message_for, refresh, update_prometheus,
}

-- `Known` says which registrations are accepted under a key for another reason.
module _ (Known : String → Option Registration → Type 0) where
  -- The registration of an entry has the entry's key as its host name, or is known.
  abbrev pub HasOrigin : String → Option Registration → Type 0
  HasOrigin k ro = ((r : Registration) × (ro ≡ some r) × (r.hostname ≡ k)) ⊎ Known k ro

  abbrev OriginOf : String → Option HeartbeatMessage → Type 0
  OriginOf k none = Unit
  OriginOf k (some v) = HasOrigin k v.registration

  pub record HasOrigins (m : Map HeartbeatMessage) : Type 0 where
    pub origin : (k : String) → OriginOf k (lookup k m)

  pub nothing-HasOrigins : HasOrigins []
  nothing-HasOrigins = record { origin = λ k. rw (lookup-nil k) tt }

  pub HasOrigins-at :
      (m : Map HeartbeatMessage) (k : String) (v : HeartbeatMessage)
      → HasOrigins m
      → lookup k m ≡ some v
      → HasOrigin k v.registration
  HasOrigins-at m k v h at = subst (OriginOf k) at (h.origin k)

  pub all_known-HasOrigins :
      (m : Map HeartbeatMessage)
      → ((k : String) (v : HeartbeatMessage) → lookup k m ≡ some v → Known k v.registration)
      → HasOrigins m
  all_known-HasOrigins m known = record { origin = λ k. go k (lookup k m) refl }
    where
      go : (k : String) (o : Option HeartbeatMessage) → lookup k m ≡ o → OriginOf k o
      go k none e = tt
      go k (some v) e = inr (known k v e)

  insert-HasOrigins :
      (k : String) (v : HeartbeatMessage) (m : Map HeartbeatMessage)
      → HasOrigin k v.registration
      → HasOrigins m
      → HasOrigins (insert k v m)
  insert-HasOrigins k v m h origins = record {
    origin = λ j. rw lookup-insert (go j (k == j) (eq_iff k j).0);
  }
    where
      go :
          (j : String) (b : Bool)
          → (b ≡ true → k ≡ j)
          → OriginOf j (if b then some v else lookup j m)
      go j true same = subst (λ i. HasOrigin i v.registration) (same refl) h
      go j false same = origins.origin j

  module _ (C : StoreClient) where
    pub register_instance-HasOrigins :
        (rm : Registration) (t : Tracker C)
        → HasOrigins t.instances
        → HasOrigins (register_instance C rm t).0.instances
    unfolding register_instance
    register_instance-HasOrigins rm t h = go (
        C.put rm.hostname (registration rm) (record { field_must_exist = ""; with_expire = true })
          t.store)
      where
        entry :
            (o : Option HeartbeatMessage)
            → HasOrigin rm.hostname (with_registration rm o).registration
        entry none = inl (rm, refl, refl)
        entry (some v) = inl (rm, refl, refl)

        go : (p : C.Store × Bool) → HasOrigins (register_after C rm t p).0.instances
        go (store, false) = h
        go (store, true) =
            insert-HasOrigins rm.hostname _ t.instances (entry (lookup rm.hostname t.instances)) h

    pub update_health-HasOrigins :
        (hostname : String) (hm : Health) (t : Tracker C)
        → HasOrigins t.instances
        → HasOrigins (update_health C hostname hm t).0.instances
    unfolding update_health
    update_health-HasOrigins hostname hm t h = go (
        C.put hostname (health hm)
          (record { field_must_exist = "Registration"; with_expire = true }) t.store)
      where
        found :
            (store : C.Store) (o : Option HeartbeatMessage)
            → OriginOf hostname o
            → HasOrigins
                (update_health_locally C hostname hm (record t { store = store }) o).0.instances
        found store none own = h
        found store (some v) own = insert-HasOrigins hostname _ t.instances own h

        go : (p : C.Store × Bool) → HasOrigins (update_health_after C hostname hm t p).0.instances
        go (store, false) = h
        go (store, true) = found store (lookup hostname t.instances) (h.origin hostname)

    update_message-HasOrigins :
        (v : HeartbeatMessage) (pm : Prometheus) (r : Registration) (t : Tracker C)
        → v.registration ≡ some r
        → HasOrigins t.instances
        → HasOrigins (update_prometheus_message C r.hostname v pm t).0.instances
    unfolding update_prometheus_message
    update_message-HasOrigins v pm r t e h = go (C.put _ _ _ _)
      where
        go :
            (p : C.Store × Bool)
            → HasOrigins (update_message_after C r.hostname v pm t p).0.instances
        go (store, false) = h
        go (store, true) =
            insert-HasOrigins r.hostname (record v { prometheus = some pm }) t.instances
              (inl (r, e, refl)) h

    refresh_one-HasOrigins :
        (o : Option HeartbeatMessage) (m : Option Prometheus) (s : Tracker C × Bool)
        → HasOrigins s.0.instances
        → HasOrigins (refresh_one C o m s).0.instances
    unfolding refresh_one
    refresh_one-HasOrigins none m s h = h
    refresh_one-HasOrigins (some v) none s h = h
    refresh_one-HasOrigins (some v) (some pm) (t, failed) h = go v.registration refl
      where
        go :
            (ro : Option Registration)
            → v.registration ≡ ro
            → HasOrigins
                (elim ro as (λ _. Tracker C × Bool) [
                  | none ↦ (t, failed)
                  | some r ↦
                      let (t', done) = update_prometheus_message C r.hostname v pm t in
                      (t', failed || not done)
                ]).0.instances
        go none e = h
        go (some r) e = update_message-HasOrigins v pm r t e h

    module _ (H : HostPackage) (hostnames machines : Map Bool) where
      refresh-HasOrigins :
          (ks : List String) (s : Tracker C × Bool)
          → HasOrigins s.0.instances
          → HasOrigins (refresh C H hostnames machines ks s).0.instances
      unfolding refresh
      refresh-HasOrigins [] s h = h
      refresh-HasOrigins (k ∷ ks) s h = refresh-HasOrigins ks _ (
          refresh_one-HasOrigins (lookup k s.0.instances)
            (message_for C H hostnames machines (lookup k s.0.instances)) s h)

      pub update_prometheus-HasOrigins :
          (order : List String → List String) (t : Tracker C)
          → HasOrigins t.instances
          → HasOrigins (update_prometheus C H hostnames machines order t).0.instances
      unfolding update_prometheus
      update_prometheus-HasOrigins order t h =
          refresh-HasOrigins (order (keys t.instances)) (t, false) h
