-- ===== src/Tracker/Laws.antt =====
-- What the calls of a tracker do to its instances.
use locate.Prelude.{
  String, ◌≡◌, refl, sym, ap, ◌∙◌, ◌⊎◌, inl, inr, Bool, true, false, Option, none, some, List, ◌≢◌,
  arith, ◌==◌, eq_iff, ==_refl, ◌>>=◌, if◌then◌else◌,
}
use locate.Prelude.Maps.{Map, lookup, lookup-insert, keys, contains}
use locate.Api.{Registration, Health, HeartbeatMessage}
use locate.Host.{HostPackage}
use locate.Location.Valid.{is_healthy}
use locate.Tracker.{
  registration, health, StoreClient, Tracker, put_failed, not_found, prometheus_failed,
  with_registration, register_after, register_instance, update_health_after, update_health_locally,
  TrackerError, update_health, message_for, update_prometheus,
}
use locate.Tracker.Signals.{combine, machine_signal, construct_prometheus_message}
use locate.Tracker.Refresh.{refreshed, update_prometheus-refreshed}
use locate.Tracker.Invariant.{IsKeyed}

module _ (C : StoreClient) where
  -- What `RegisterInstance` returns and leaves behind, for an outcome of the write to Memorystore.
  abbrev pub IsRegistered :
      Registration → Tracker C → C.Store × Bool → Tracker C × Option TrackerError → Type 0
  IsRegistered rm t (store, false) (t', e) =
      (e ≡ some put_failed) × (t'.store ≡ store) × (t'.instances ≡ t.instances)
  IsRegistered rm t (store, true) (t', e) =
      (e ≡ none)
      × (t'.store ≡ store)
      × (lookup rm.hostname t'.instances
          ≡ some (record {
            health = lookup rm.hostname t.instances >>= (λ v. v.health);
            registration = some rm;
            prometheus = lookup rm.hostname t.instances >>= (λ v. v.prometheus);
          }))
      × ((j : String) → rm.hostname ≢ j → lookup j t'.instances ≡ lookup j t.instances)

  with_registration-fields :
      (rm : Registration) (o : Option HeartbeatMessage)
      → with_registration rm o ≡ record {
        health = o >>= (λ v. v.health);
        registration = some rm;
        prometheus = o >>= (λ v. v.prometheus);
      }
  with_registration-fields rm none = refl
  with_registration-fields rm (some v) = refl

  -- `RegisterInstance` writes the registration to Memorystore, under its host name and with an expiry. Where
  -- that write fails, it reports the failure and leaves the instances alone; where it succeeds, it returns no
  -- error and changes the entry of the host name only: that gets the new registration, and keeps the health
  -- and the Prometheus data that it had, if any.
  pub lookup-register_instance :
      (rm : Registration) (t : Tracker C)
      → IsRegistered rm t
          (C.put rm.hostname
            (registration rm)
            (record { field_must_exist = ""; with_expire = true })
            t.store)
          (register_instance C rm t)
  unfolding register_instance
  lookup-register_instance rm t = go (
      C.put rm.hostname (registration rm) (record { field_must_exist = ""; with_expire = true })
        t.store)
    where
      entry : Option HeartbeatMessage
      entry = lookup rm.hostname t.instances

      go : (p : C.Store × Bool) → IsRegistered rm t p (register_after C rm t p)
      go (store, false) = (refl, refl, refl)
      go (store, true) = (
        refl,
        refl,
        rw (lookup-insert rm.hostname rm.hostname (with_registration rm entry) t.instances)
            (rw (==_refl rm.hostname) (ap some (with_registration-fields rm entry))),
        λ j other. ground (
          arith,
          other,
          eq_iff rm.hostname j,
          lookup-insert rm.hostname j (with_registration rm entry) t.instances,
        ),
      )

  -- What `UpdateHealth` returns and leaves behind, for an outcome of the write to Memorystore.
  abbrev pub IsUpdated :
      String → Health → Tracker C → C.Store × Bool → Tracker C × Option TrackerError → Type 0
  IsUpdated hostname hm t (store, false) (t', e) =
      (e ≡ some put_failed) × (t'.store ≡ store) × (t'.instances ≡ t.instances)
  IsUpdated hostname hm t (store, true) (t', e) =
      (t'.store ≡ store)
      × (((e ≡ some not_found)
            × (lookup hostname t.instances ≡ none)
            × (t'.instances ≡ t.instances))
          ⊎ ((v : HeartbeatMessage) × (e ≡ none)
              × (lookup hostname t.instances ≡ some v)
              × ((j : String)
                  → lookup j t'.instances ≡ (
                      if hostname == j
                      then some (record v { health = some hm })
                      else lookup j t.instances))))

  -- `UpdateHealth` writes the health to Memorystore, under the host name, with an expiry, and only where a
  -- registration is there. Where that write fails, it reports the failure and changes no instance. Where it
  -- succeeds, it reports that the host name is unknown here and changes no instance, or it returns no error,
  -- and changes the health of that instance, which was known, and nothing else.
  pub update_health-IsUpdated :
      (hostname : String) (hm : Health) (t : Tracker C)
      → IsUpdated hostname hm t
          (C.put hostname
            (health hm)
            (record { field_must_exist = "Registration"; with_expire = true })
            t.store)
          (update_health C hostname hm t)
  unfolding update_health update_health_after update_health_locally
  update_health-IsUpdated hostname hm t = go (
      C.put hostname (health hm) (record { field_must_exist = "Registration"; with_expire = true })
        t.store)
    where
      found :
          (store : C.Store) (o : Option HeartbeatMessage)
          → lookup hostname t.instances ≡ o
          → IsUpdated hostname hm t
              (store, true)
              (update_health_locally C hostname hm (record t { store = store }) o)
      found store none e = (refl, inl (refl, e, refl))
      found store (some v) e = (refl, inr (v, refl, e, λ j. lookup-insert hostname j _ t.instances))

      go : (p : C.Store × Bool) → IsUpdated hostname hm t p (update_health_after C hostname hm t p)
      go (store, false) = (refl, refl, refl)
      go (store, true) = found store (lookup hostname t.instances) refl

  module _ (H : HostPackage) (hostnames machines : Map Bool) where
    combine_unhealthy :
        (host machine : Option Bool)
        → (host ≡ some false) ⊎ (machine ≡ some false)
        → combine host machine ≡ some (record { health = false })
    unfolding combine
    combine_unhealthy host machine bad = ground arith

    is_healthy-signal :
        (v : HeartbeatMessage)
        → is_healthy (record v { prometheus = some (record { health = false }) }) ≡ false
    unfolding is_healthy
    is_healthy-signal v = ground arith

    -- An instance whose host or machine Prometheus reports as unhealthy is not healthy once its entry is
    -- refreshed.
    refreshed_unhealthy :
        (v w : HeartbeatMessage) (r : Registration)
        → v.registration ≡ some r
        → (lookup r.hostname hostnames ≡ some false)
          ⊎ (machine_signal H machines (H.parse r.hostname) ≡ some false)
        → refreshed C H hostnames machines (some v) ≡ some w
        → is_healthy w ≡ false
    unfolding refreshed message_for construct_prometheus_message
    refreshed_unhealthy v w r e bad out =
        let m =
          combine_unhealthy (lookup r.hostname hostnames)
            (machine_signal H machines (H.parse r.hostname)) bad in
        cc (out, is_healthy-signal v, e, m)

    -- When `UpdatePrometheus` returns no error, an instance that its loop visited, and whose host or
    -- machine the Prometheus data calls unhealthy, is not healthy from then on.
    pub update_prometheus-unhealthy :
        (order : List String → List String) (t : Tracker C) (j : String) (v w : HeartbeatMessage)
        (r : Registration)
        → IsKeyed t.instances
        → lookup j t.instances ≡ some v
        → v.registration ≡ some r
        → (lookup r.hostname hostnames ≡ some false)
          ⊎ (machine_signal H machines (H.parse r.hostname) ≡ some false)
        → contains (order (keys t.instances)) j ≡ true
        → (update_prometheus C H hostnames machines order t).1 ≡ none
        → lookup j (update_prometheus C H hostnames machines order t).0.instances ≡ some w
        → is_healthy w ≡ false
    update_prometheus-unhealthy order t j v w r keyed before e bad visited done after =
        go (update_prometheus-refreshed C H hostnames machines order t keyed j).1
      where
        go :
            ((update_prometheus C H hostnames machines order t).1 ≡ some prometheus_failed)
              ⊎ (contains (order (keys t.instances)) j ≡ false)
              ⊎ (lookup j (update_prometheus C H hostnames machines order t).0.instances
                  ≡ refreshed C H hostnames machines (lookup j t.instances))
            → is_healthy w ≡ false
        go (inl failed) = cc
        go (inr (inl missed)) = cc
        go (inr (inr same)) =
            refreshed_unhealthy v w r e bad
              (ap (refreshed C H hostnames machines) (sym before) ∙ sym same ∙ after)
