-- ===== src/Handler/Heartbeats/Gauge.antt =====
-- The gauge of open heartbeat connections.
use locate.Prelude.{◌≡◌, ◌≢◌, ◌⊎◌, Option, none, some, [], ◌∷◌, ◌==◌, if◌then◌else◌}
use locate.Api.{Registration}
use locate.Tracker.{StoreClient, Tracker}
use locate.Handler.Heartbeats.{Event, read_error, no_message, garbled, message, Session, Round}

-- A registration that the event carries has a host name and an experiment.
abbrev Names : Option Registration → Type 0
Names none = Unit
Names (some r) = (r.hostname ≢ "") × (r.experiment ≢ "")

abbrev pub IsNamed : Event → Type 0
IsNamed (message hbm) = Names hbm.registration
IsNamed read_error = Unit
IsNamed no_message = Unit
IsNamed garbled = Unit

-- While the loop runs, a connection that has registered is counted once, for its experiment.
abbrev IsOpen : {C : StoreClient} → Session C → Type 0
IsOpen s =
    ((s.hostname ≡ "") × (s.experiment ≡ "") × (s.incremented ≡ []) × (s.decremented ≡ []))
    ⊎ ((s.hostname ≢ "")
        × (s.experiment ≢ "")
        × (s.incremented ≡ s.experiment ∷ [])
        × (s.decremented ≡ []))

-- While the loop runs, the gauge was incremented once, for the experiment of the connection, where it
-- has registered, and otherwise never. When the loop returns, each increment was taken back.
abbrev pub IsCounted : {C : StoreClient} → Round C → Type 0
IsCounted (s, none) =
    (s.incremented ≡ (if s.hostname == "" then [] else s.experiment ∷ [])) × (s.decremented ≡ [])
IsCounted (s, some why) = s.incremented ≡ s.decremented

abbrev Fits : {C : StoreClient} → Round C → Type 0
Fits (s, none) = IsOpen s
Fits (s, some why) = s.incremented ≡ s.decremented
