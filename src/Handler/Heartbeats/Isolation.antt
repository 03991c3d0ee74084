-- ===== src/Handler/Heartbeats/Isolation.antt =====
-- Which instances the health messages of a connection can change.
use locate.Prelude.{
  ◌≡◌, ◌≢◌, refl, ◌∙◌, sym, String, Bool, true, false, Option, none, some, List, [], ◌∷◌, arith,
  eq_iff, All,
}
use locate.Prelude.Maps.{lookup, lookup-insert}
use locate.Api.{Registration, Health, HeartbeatMessage}
use locate.Tracker.{
  StoreClient, Tracker, TrackerError, health, update_health, update_health_after,
  update_health_locally,
}
use locate.Handler.Heartbeats.{
  Event, read_error, no_message, garbled, message, Session, Surroundings, Round, close_connection,
  after_health, dispatch, handle_event, handle_heartbeats,
}

-- The event is not a registration.
abbrev pub IsUnregistering : Event → Type 0
IsUnregistering (message hbm) = hbm.registration ≡ none
IsUnregistering read_error = Unit
IsUnregistering no_message = Unit
IsUnregistering garbled = Unit

module _ {C : StoreClient} where
  -- Same host name, and the same entry at the host name `j`.
  record Same (s : Session C) (j : String) (s' : Session C) : Type 0 where
    hostname : s'.hostname ≡ s.hostname
    entry : lookup j s'.tracker.instances ≡ lookup j s.tracker.instances

  close_connection-Same : (s : Session C) (j : String) → Same s j (close_connection s)
  unfolding close_connection
  close_connection-Same s j = record { hostname = ground arith; entry = ground arith }

  update_health-elsewhere :
      (hostname j : String) (hm : Health) (t : Tracker C)
      → hostname ≢ j
      → lookup j (update_health C hostname hm t).0.instances ≡ lookup j t.instances
  unfolding update_health update_health_after update_health_locally
  update_health-elsewhere hostname j hm t other = go (
      C.put hostname (health hm) (record { field_must_exist = "Registration"; with_expire = true })
        t.store)
    where
      found :
          (o : Option HeartbeatMessage) (t : Tracker C)
          → lookup j (update_health_locally C hostname hm t o).0.instances ≡ lookup j t.instances
      found none t = refl
      found (some v) t = ground (
        arith,
        lookup-insert hostname j (record v { health = some hm }) t.instances,
        eq_iff hostname j,
        other,
      )

      go :
          (p : C.Store × Bool)
          → lookup j (update_health_after C hostname hm t p).0.instances ≡ lookup j t.instances
      go (store, false) = refl
      go (store, true) = found (lookup hostname t.instances) (record t { store = store })

  after_health-Same :
      (s : Session C) (j : String) (p : Tracker C × Option TrackerError)
      → lookup j p.0.instances ≡ lookup j s.tracker.instances
      → Same s j (after_health s p).0
  unfolding after_health
  after_health-Same s j (t, none) h = record { hostname = refl; entry = h }
  after_health-Same s j (t, some e) h =
      let same = close_connection-Same (record s { tracker = t }) j in
      record { hostname = same.hostname; entry = same.entry ∙ h }

  module _ (E : Surroundings) where
    dispatch-Same :
        (r : Option Registration) (hm : Option Health) (s : Session C) (j : String)
        → r ≡ none
        → s.hostname ≢ j
        → Same s j (dispatch E r hm s).0
    unfolding dispatch
    dispatch-Same (some r) hm s j e other = cc
    dispatch-Same none none s j e other = record { hostname = refl; entry = refl }
    dispatch-Same none (some hm) s j e other =
        after_health-Same s j (update_health C s.hostname hm s.tracker)
          (update_health-elsewhere s.hostname j hm s.tracker other)

    handle_event-Same :
        (event : Event) (s : Session C) (j : String)
        → IsUnregistering event
        → s.hostname ≢ j
        → Same s j (handle_event E event s).0
    unfolding handle_event
    handle_event-Same read_error s j h other = close_connection-Same s j
    handle_event-Same no_message s j h other = record { hostname = refl; entry = refl }
    handle_event-Same garbled s j h other = record { hostname = refl; entry = refl }
    handle_event-Same (message hbm) s j h other =
        dispatch-Same hbm.registration hbm.health s j h other

    -- Between two registrations, whatever a connection sends changes at most the instance under the host
    -- name that it registered first; and nothing where it has not registered and no instance has the
    -- empty host name.
    pub handle_heartbeats-elsewhere :
        (events : List Event) (s : Session C) (j : String)
        → All IsUnregistering events
        → s.hostname ≢ j
        → lookup j (handle_heartbeats E events s).0.tracker.instances ≡ lookup j s.tracker.instances
    unfolding handle_heartbeats
    handle_heartbeats-elsewhere [] s j hs other = refl
    handle_heartbeats-elsewhere (event ∷ rest) s j (h, hs) other =
        go (handle_event E event s) (handle_event-Same event s j h other)
          (λ s' o. handle_heartbeats-elsewhere rest s' j hs o)
      where
        go :
            (p : Round C)
            → Same s j p.0
            → ((s' : Session C)
                → s'.hostname ≢ j
                → lookup j (handle_heartbeats E rest s').0.tracker.instances
                  ≡ lookup j s'.tracker.instances)
            → lookup j
                (elim p.1 as (λ _. Round C) [
                  | some why ↦ (p.0, some why)
                  | none ↦ handle_heartbeats E rest p.0
                ]).0.tracker.instances
              ≡ lookup j s.tracker.instances
        go (s', some why) same more = same.entry
        go (s', none) same more = more s' (λ e. other (sym same.hostname ∙ e)) ∙ same.entry
