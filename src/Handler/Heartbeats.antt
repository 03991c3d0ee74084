-- ===== src/Handler/Heartbeats.antt =====
-- handler/heartbeat.go: the loop that reads the messages of one connection.
pub mod Deliveries
pub mod Gauge
pub mod Knowledge
pub mod Isolation
use locate.Prelude.{
  String, Bool, true, false, Option, none, some, List, [], ◌∷◌, ◌==◌, ◌!=◌, if◌then◌else◌,
}
use locate.Api.{Registration, Health, HeartbeatMessage}
use locate.Host.{HostPackage}
use locate.Tracker.{StoreClient, Tracker, TrackerError, register_instance, update_health}
use locate.Handler.Signals.{Answer, update_for_machine}

-- What `ReadMessage` and `json.Unmarshal` return: an error, no message, a message that does not
-- parse, or a parsed one.
pub data Event : Type 0 where
  read_error no_message garbled : Event
  message : HeartbeatMessage → Event

pub data Reason : Type 0 where
  connection_lost : Reason
  register_error health_error : TrackerError → Reason

-- The variables of `handleHeartbeats` and what it changes: the tracker, and the labels whose gauge
-- `CurrentHeartbeatConnections` it has incremented and decremented, the last one first.
pub record Session (C : StoreClient) : Type 0 where
  pub tracker : Tracker C
  pub hostname : String
  pub experiment : String
  pub incremented : List String
  pub decremented : List String

-- What the surroundings of the loop answer: `host.Parse`, the order of `range` over the instances,
-- the Prometheus client and the verb %q.
pub record Surroundings : Type 1 where
  pub host : HostPackage
  pub order : List String → List String
  pub ask : String → Answer
  pub quote : String → String

-- The state after one round of the loop, and why it returns, where it does.
abbrev pub Round : StoreClient → Type 0
Round C = Session C × Option Reason

module _ {C : StoreClient} where
  unfoldable pub close_connection : Session C → Session C
  close_connection s =
      if s.experiment != "" then record s { decremented = s.experiment ∷ s.decremented } else s

  -- `hostname`, `experiment` and the gauge, after a registration was written
  unfoldable pub note_registration : Registration → Session C → Session C
  note_registration r s =
      if s.hostname == ""
      then record s {
        hostname = r.hostname;
        experiment = r.experiment;
        incremented = r.experiment ∷ s.incremented;
      }
      else s

  unfoldable pub after_register :
      Surroundings → Registration → Session C → Tracker C × Option TrackerError → Round C
  unfolding close_connection note_registration
  after_register E r s (t, some e) =
      (close_connection (record s { tracker = t }), some (register_error e))
  after_register E r s (t, none) =
      let s' = note_registration r (record s { tracker = t }) in
      (
        record s' { tracker = (update_for_machine C E.host E.order E.ask E.quote r.hostname t).0 },
        none,
      )

  unfoldable pub after_health : Session C → Tracker C × Option TrackerError → Round C
  unfolding close_connection
  after_health s (t, some e) = (close_connection (record s { tracker = t }), some (health_error e))
  after_health s (t, none) = (record s { tracker = t }, none)

  -- The `switch`, on `Registration` and on `Health`
  unfoldable pub dispatch : Surroundings → Option Registration → Option Health → Session C → Round C
  unfolding after_register after_health
  dispatch E (some r) h s = after_register E r s (register_instance C r s.tracker)
  dispatch E none (some h) s = after_health s (update_health C s.hostname h s.tracker)
  dispatch E none none s = (s, none)

  -- One round of the loop of `handleHeartbeats`
  unfoldable pub handle_event : Surroundings → Event → Session C → Round C
  unfolding dispatch close_connection
  handle_event E read_error s = (close_connection s, some connection_lost)
  handle_event E no_message s = (s, none)
  handle_event E garbled s = (s, none)
  handle_event E (message hbm) s = dispatch E hbm.registration hbm.health s

  -- `handleHeartbeats` on what the connection delivers; without a reason where the loop still waits
  -- after the last event.
  unfoldable pub handle_heartbeats : Surroundings → List Event → Session C → Round C
  unfolding handle_event
  handle_heartbeats E [] s = (s, none)
  handle_heartbeats E (event ∷ rest) s =
      let (s', reason) = handle_event E event s in
      elim reason [ some why ↦ (s', some why) | none ↦ handle_heartbeats E rest s' ]

  unfoldable pub new_session : Tracker C → Session C
  new_session t = record {
    tracker = t;
    hostname = "";
    experiment = "";
    incremented = [];
    decremented = [];
  }
