-- ===== src/Tests/Clients.antt =====
-- connection, cmd/heartbeat/health and siteinfo on small inputs.
use locate.Prelude.{
  ◌↔◌, ◌⊎◌, ok, err, String, ◌≡◌, refl, Bool, true, false, ◌&&◌, Option, none, some, List, [], ◌∷◌,
  ◌==◌, if◌then◌else◌,
}
use locate.Prelude.Maps.{Map, keys, contains}
use locate.Connection.{
  established, refused, ConnError, dial_error, Conn, Reconnection, new_conn, dial, set_dial_message,
  connect, attempt, greet, write, write_message, retry_errors,
}
use locate.Connection.Greeting.{IsGreeted}
use locate.Connection.Steps.{Step, Reach, Reach-IsGreeted}
use locate.Health.{check_ports, get_ports, get_health, full_score, zero_score}
use locate.Health.Ports.{AllOpen, check_ports-AllOpen}
use locate.Health.Score.{is_up, answers, get_health-is_up}
use locate.Siteinfo.Selection.{Outcome}
use locate.Api.{HeartbeatMessage, new_error}
use locate.Handler.Urls.{Values, get}
use locate.Handler.Platform.{registrations_handler, registrations_handler-wanted}
use locate.Tests.Stores.{two_tracked}
use locate.Tests.Samples.{plain_host, plain_url}

abbrev smooth : Reconnection
smooth = record {
  closes = true;
  first = refused (some 503);
  more = established ∷ [];
  writes = true;
}

abbrev dialed : Conn String
dialed = record {
  is_dialed = true;
  is_connected = true;
  ws = some 0;
  dial_message = "registration";
  opened = 1;
  broken = false;
  log = record { socket = 0; greeting = true; body = "registration" } ∷ [];
}

dialed_lem :
    dial
      (some (record { scheme = "wss"; host = "locate"; path = "/"; raw_query = "" }))
      smooth
      "registration"
      (new_conn "")
    ≡ some (dialed, none)
unfolding dial connect attempt greet write new_conn retry_errors
dialed_lem = refl

-- A second `Dial` that is refused for good returns the error, and sends nothing on the websocket that is
-- still open.
refused_again :
    dial
      (some (record { scheme = "wss"; host = "locate"; path = "/"; raw_query = "" }))
      (record smooth { first = refused (some 403); more = [] })
      "moved"
      dialed
    ≡ some (record dialed { dial_message = "moved" }, some dial_error)
unfolding dial connect attempt greet retry_errors
refused_again = refl

Reach-IsGreeted_example :
    IsGreeted (set_dial_message "moved" dialed).log
    × ((message : String) (r : Reconnection) (works : Bool) (r' : Reconnection) (works' : Bool)
        → (c' : Conn String) × (e : Option ConnError) × (write_message message r works r' works'
              (set_dial_message "moved" dialed)
            ≡ some (c', e)))
Reach-IsGreeted_example = Reach-IsGreeted "" (
    Reach.next
      (Reach.next Reach.here (
        Step.dials (some (record { scheme = "wss"; host = "locate"; path = "/"; raw_query = "" }))
          smooth "registration" dialed_lem))
      (Step.changes "moved"))

abbrev services : Map (List String)
services = ("ndt/ndt7", "wss:///ndt" ∷ "ws:///ndt" ∷ []) ∷ []

check_ports-AllOpen_example :
    (check_ports (λ p. p == "443") (keys (get_ports plain_url services)) ≡ true)
    ↔ AllOpen (λ p. p == "443") plain_url services
check_ports-AllOpen_example =
    check_ports-AllOpen (λ p. p == "443") plain_url services (λ ks. ks) (λ ks k. refl)

get_health-is_up_example :
    get_health true (some (record { pod = some "Running"; node = none })) (some 500) ≡ (
      if true && is_up (some (record { pod = some "Running"; node = none })) && answers (some 500)
      then full_score
      else zero_score)
get_health-is_up_example =
    get_health-is_up true (some (record { pod = some "Running"; node = none })) (some 500)

-- The query and what the handler answers.
abbrev query : Values
query = ("org", "mlab" ∷ []) ∷ ("exp", "ndt" ∷ []) ∷ []

registrations_handler-wanted_example :
    ((k : String) × (registrations_handler plain_host (λ s. s) query two_tracked
        ≡ (500, err (new_error "siteinfo" k 500)))
      × (contains (keys two_tracked.instances) k ≡ true)
      × (plain_host.parse k ≡ none))
    ⊎ ((found : Map HeartbeatMessage) × (registrations_handler plain_host (λ s. s) query two_tracked
          ≡ (200, ok found))
        × Outcome plain_host (get "org" query) (get "exp" query) two_tracked.instances (ok found))
unfolding keys contains
registrations_handler-wanted_example =
    registrations_handler-wanted plain_host (λ s. s) query two_tracked (refl, (refl, tt))
