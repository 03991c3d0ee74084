-- ===== src/Instance.antt =====
-- cmd/heartbeat/main.go: an instance, which registers with the service and then reports its health.
pub mod Loaded
pub mod Loading
pub mod Announce
pub mod Service
pub mod Starting
use locate.Prelude.{
  String, Bool, true, false, Option, none, some, List, [], ◌∷◌, ◌>>=◌, if◌then◌else◌, ◌==◌, Result,
  ok, err,
}
use locate.Prelude.Maps.{Map}
use locate.Float.{Float64}
use locate.Url.{Url}
use locate.Host.{HostPackage}
use locate.Api.{Registration, Health, HeartbeatMessage}
use locate.Connection.{ConnError, Conn, Reconnection, new_conn, dial, close_conn, send_message}
use locate.Instance.Loading.{Loader, LoadError, new_loader, get_registration}

-- What the network does in one call of `WriteMessage`.
pub record Weather : Type 0 where
  pub before : Reconnection
  pub writes : Bool
  pub again : Reconnection
  pub writes_again : Bool

-- What `select` receives in `write`, with what the surroundings answer: the end of the context, SIGTERM,
-- the tick of the loader with the download, and the tick of the heartbeat with the score.
pub data Tick : Type 0 where
  context_done sigterm : Weather → Bool → Tick
  load_tick : Result LoadError (Map Registration) → Weather → Tick
  beat_tick : Float64 → Weather → Tick

-- `+0`
abbrev pub no_score : Float64
no_score = record { negative = false; magnitude = 0 }

abbrev pub registration_message : Option Registration → HeartbeatMessage
registration_message reg = record { health = none; registration = reg; prometheus = none }

abbrev pub health_message : Float64 → HeartbeatMessage
health_message score = record {
  health = some (record { score = score });
  registration = none;
  prometheus = none;
}

abbrev Net : Type 0
Net = Conn HeartbeatMessage

-- What the program is while `write` runs, and whether `write` has returned.
pub record Instance (H : HostPackage) : Type 0 where
  pub conn : Net
  pub loader : Loader H
  pub ended : Bool

-- Why the program stops before `write`: `rtx.Must`, or a panic.
pub data Stop : Type 0 where
  must panic : Stop

-- Which health checks `main` chooses.
pub data Checker : Type 0 where
  gcp_checker local_checker kubernetes_checker : Checker

-- The content of the file that marks a load-balanced machine, `none` where it cannot be read, and whether
-- there is a Kubernetes URL.
unfoldable choose_checker : Option String → Bool → Checker
choose_checker none kubernetes = if kubernetes then kubernetes_checker else local_checker
choose_checker (some content) kubernetes =
    if content == "true"
    then gcp_checker
    else (if kubernetes then kubernetes_checker else local_checker)

-- `sendMessage`; `none` is a panic
unfoldable pub send : Bool → HeartbeatMessage → Weather → Net → Option Net
unfolding send_message
send is_registration hbm w conn =
    send_message is_registration hbm w.before w.writes w.again w.writes_again conn >>= λ sent.
    some sent.0

module _ (H : HostPackage) (equal : Registration → Registration → Bool) where
  -- `sendExitMessage`, and `ws.Close` as `write` returns
  unfoldable pub leave : Weather → Bool → Instance H → Option (Instance H)
  unfolding send
  leave w closes i = send false (health_message no_score) w i.conn >>= λ conn.
      some (record i { conn = (close_conn closes conn).0; ended = true })

  unfoldable pub announce :
      Weather → Net → Loader H × Result LoadError (Option Registration) → Option (Instance H)
  unfolding send
  announce w conn (loader, err e) = some (record { conn = conn; loader = loader; ended = false })
  announce w conn (loader, ok none) = some (record { conn = conn; loader = loader; ended = false })
  announce w conn (loader, ok (some reg)) =
      send true (registration_message (some reg)) w conn >>= λ conn'.
      some (record { conn = conn'; loader = loader; ended = false })

  -- one round of the loop
  unfoldable pub on_tick : Tick → Instance H → Option (Instance H)
  unfolding leave announce
  on_tick (context_done w closes) i = leave w closes i
  on_tick (sigterm w closes) i = leave w closes i
  on_tick (load_tick got w) i = announce w i.conn (get_registration H equal got i.loader)
  on_tick (beat_tick score w) i =
      send false (health_message score) w i.conn >>= λ conn. some (record i { conn = conn })

  -- `write`, over the ticks that arrive before it returns
  unfoldable pub write : List Tick → Instance H → Option (Instance H)
  unfolding on_tick
  write [] i = some i
  write (tick ∷ ticks) i = if i.ended then some i else (on_tick tick i >>= write ticks)

  unfoldable pub dialed : Loader H → Option (Net × Option ConnError) → Result Stop (Instance H)
  dialed loader none = err panic
  dialed loader (some (conn, some e)) = err must
  dialed loader (some (conn, none)) = ok (record { conn = conn; loader = loader; ended = false })

  -- `conn.Dial` with the first registration
  unfoldable pub connect :
      Option Url
      → Reconnection
      → Loader H × Result LoadError (Option Registration)
      → Result Stop (Instance H)
  unfolding dialed
  connect url r (loader, err e) = err must
  connect url r (loader, ok reg) =
      dialed loader (dial url r (registration_message reg) (new_conn (registration_message none)))

  unfoldable pub start_loader :
      Option Url
      → Reconnection
      → Result LoadError (Map Registration)
      → Option (Loader H)
      → Result Stop (Instance H)
  unfolding connect
  start_loader url r got none = err must
  start_loader url r got (some loader) = connect url r (get_registration H equal got loader)

  -- `main` up to `write`, with the flags: the heartbeat URL as `url.ParseRequestURI` gives it, whether
  -- there is a registration URL, and the others by their names.
  unfoldable pub start :
      Option Url
      → Bool
      → String
      → String
      → Map (List String)
      → Reconnection
      → Result LoadError (Map Registration)
      → Result Stop (Instance H)
  unfolding start_loader
  start url has_registration_url hostname experiment services r got =
      start_loader url r got (new_loader H has_registration_url hostname experiment services)
