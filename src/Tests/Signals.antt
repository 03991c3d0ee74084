-- ===== src/Tests/Signals.antt =====
-- handler/prometheus.go, with a machine in maintenance.
use locate.Prelude.{String, false, some, List, [], ◌∷◌, ◌==◌, if◌then◌else◌}
use locate.Api.{HeartbeatMessage}
use locate.Handler.Signals.{Sample, Answer, vector}
use locate.Tests.Samples.{one, near}

abbrev in_maintenance : List Sample
in_maintenance = record { metric = ("machine", "near") ∷ []; value = one } ∷ []

abbrev ask : String → Answer
ask q = if q == "gmx_machine_maintenance" then vector in_maintenance else vector []

abbrev out_of_service : HeartbeatMessage
out_of_service = record near { prometheus = some (record { health = false }) }
