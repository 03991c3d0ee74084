-- ===== src/Tracker/Signals.antt =====
-- `constructPrometheusMessage`
use locate.Prelude.{Bool, true, false, not, ◌&&◌, ◌||◌, Option, none, some, if◌then◌else◌}
use locate.Prelude.Maps.{Map, lookup}
use locate.Api.{Registration, Prometheus, HeartbeatMessage}
use locate.Host.{HostPackage}

-- `v, ok := m[k]` of a map of Booleans
abbrev pub found : Option Bool → Bool
found none = false
found (some _) = true

abbrev pub value_or_false : Option Bool → Bool
value_or_false none = false
value_or_false (some b) = b

unfoldable pub combine : Option Bool → Option Bool → Option Prometheus
combine host machine =
    if found host || found machine
    then some (record {
      health =
          (not (found host) || value_or_false host)
          && (not (found machine) || value_or_false machine);
    })
    else none

module _ (H : HostPackage) where
  open H use {Name, parse, string}

  -- What `machines` has for the machine of a host name; nothing if the name does not parse.
  unfoldable pub machine_signal : Map Bool → Option Name → Option Bool
  machine_signal machines none = none
  machine_signal machines (some name) = lookup (string name) machines

  abbrev pub from_registration : Option Registration → Map Bool → Map Bool → Option Prometheus
  from_registration none hostnames machines = none
  from_registration (some r) hostnames machines =
      combine (lookup r.hostname hostnames) (machine_signal machines (parse r.hostname))

  unfoldable pub construct_prometheus_message :
      HeartbeatMessage → Map Bool → Map Bool → Option Prometheus
  unfolding combine machine_signal
  construct_prometheus_message found_instance hostnames machines =
      from_registration found_instance.registration hostnames machines
