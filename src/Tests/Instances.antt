-- ===== src/Tests/Instances.antt =====
-- cmd/heartbeat: an instance that starts, loses its connection, loads a registration and is told to stop.
use locate.Prelude.{◌≡◌, refl, Bool, true, false, Option, none, some, List, [], ◌∷◌, ok}
use locate.Prelude.Maps.{Map, lookup}
use locate.Url.{Url}
use locate.Api.{Registration, HeartbeatMessage}
use locate.Float.{Float64}
use locate.Tracker.Invariant.{new_tracker-IsKeyed}
use locate.Tracker.{new_tracker}
use locate.Connection
use locate.Connection.{
  established, refused, Reconnection, new_conn, dial, attempt, greet, retry_errors,
}
use locate.Handler.Heartbeats.{Surroundings}
use locate.Handler.Signals.{vector}
use locate.Instance.{
  Instance, Tick, Weather, beat_tick, sigterm, registration_message, start, start_loader, connect,
  dialed, write,
}
use locate.Instance.Loading.{new_loader, get_registration, find, found, update}
use locate.Instance.Starting.{IsHeard, start-IsHeard}
use locate.Instance.Service.{on_socket, IsServed, start-IsServed}
use locate.Tests.Samples.{half, one, plain_host, registration}
use locate.Tests.Stores.{forgetful}

abbrev surroundings : Surroundings
surroundings = record { host = plain_host; order = λ l. l; ask = λ q. vector []; quote = λ s. s }

abbrev smooth : Reconnection
smooth = record {
  closes = true;
  first = refused (some 503);
  more = established ∷ [];
  writes = true;
}

abbrev locate_url : Url
locate_url = record { scheme = "wss"; host = "locate"; path = "/"; raw_query = "" }

abbrev zero : Float64
zero = record { negative = false; magnitude = 0 }

abbrev siteinfo : Map Registration
siteinfo = ("ndt-lga01", registration "" "lga01" zero) ∷ []

abbrev equal : Registration → Registration → Bool
equal a b = false

abbrev loaded : Registration
loaded = registration "ndt-lga01" "lga01" zero

abbrev announcement : HeartbeatMessage
announcement = registration_message (some (record loaded { experiment = "ndt"; services = [] }))

-- The instance after it has dialed.
abbrev running : Instance plain_host
running = record {
  conn = record {
    is_dialed = true;
    is_connected = true;
    ws = some 0;
    dial_message = announcement;
    opened = 1;
    broken = false;
    log = record { socket = 0; greeting = true; body = announcement } ∷ [];
  };
  loader = record { hostname = "ndt-lga01"; exp = "ndt"; svcs = []; reg = loaded };
  ended = false;
}

running_lem :
    start plain_host equal (some locate_url) true "ndt-lga01" "ndt" [] smooth (ok siteinfo)
    ≡ ok running
unfolding start start_loader new_loader get_registration find found update lookup connect dialed
    dial attempt greet Connection.write retry_errors new_conn Connection.connect
running_lem = refl

abbrev fine : Weather
fine = record { before = smooth; writes = true; again = smooth; writes_again = true }

-- The write fails, and the connection is dialed again.
abbrev stormy : Weather
stormy = record fine { writes = false }

abbrev ticks : List Tick
ticks = beat_tick one fine ∷ beat_tick half stormy ∷ sigterm fine true ∷ beat_tick one fine ∷ []

abbrev or_running : Option (Instance plain_host) → Instance plain_host
or_running none = running
or_running (some i) = i

abbrev stopped : Instance plain_host
stopped = or_running (write plain_host equal ticks running)

stopped_lem : write plain_host equal ticks running ≡ some stopped
unfolding write Connection.write retry_errors
stopped_lem = refl

start-IsHeard_example :
    (i' : Instance plain_host) × (write plain_host equal ticks running ≡ some i')
    × IsHeard "ndt-lga01" "ndt" [] i'
start-IsHeard_example =
    start-IsHeard plain_host equal (λ a b e. cc) (some locate_url) true "ndt-lga01" "ndt" [] smooth
      (ok siteinfo) "ndt-lga01" running ticks refl (λ e. cc) running_lem

start-IsServed_example :
    IsServed {C = forgetful} "ndt-lga01" surroundings
      (new_tracker forgetful tt)
      (on_socket 0 stopped.conn.log)
start-IsServed_example =
    start-IsServed plain_host equal (λ a b e. cc) (some locate_url) true "ndt-lga01" "ndt" [] smooth
      (ok siteinfo) "ndt-lga01" running stopped ticks 0 surroundings (new_tracker forgetful tt) refl
      (λ e. cc) running_lem stopped_lem (new_tracker-IsKeyed forgetful tt)
