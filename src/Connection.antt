-- ===== src/Connection.antt =====
-- connection/connection.go: the websocket of an instance, which is dialed again when it fails.
pub mod Contents
pub mod Greeting
pub mod Steps
use locate.Prelude.{
  ℕ, suc, String, Bool, true, false, not, ◌&&◌, ◌||◌, Option, none, some, List, [], ◌∷◌, ◌==◌,
  if◌then◌else◌, nat_eq, ◌>>=◌,
}
use locate.Url.{Url}

-- What `dialer.Dial` returns: a websocket, or an error with the status of the response, if there is one.
pub data Attempt : Type 0 where
  established : Attempt
  refused : Option ℕ → Attempt

pub data ConnError : Type 0 where
  malformed_url not_dialed dial_error close_error write_error : ConnError

-- A message that the websocket package accepted, on the `socket`-th websocket of the connection; a
-- greeting is one that `connect` sends.
pub record Delivery (M : Type 0) : Type 0 where
  pub socket : ℕ
  pub greeting : Bool
  pub body : M

-- `Conn`, with what became of it: the number of websockets that it opened, whether a write on the last
-- one has failed, and the messages that were accepted, the last one first.
pub record Conn (M : Type 0) : Type 0 where
  pub is_dialed : Bool
  pub is_connected : Bool
  pub ws : Option ℕ
  pub dial_message : M
  pub opened : ℕ
  pub broken : Bool
  pub log : List (Delivery M)

-- What the network does in one reconnection: whether closing works, the outcomes of the dials, of which
-- there is at least one, since the first tick comes at once, and whether the first write works.
pub record Reconnection : Type 0 where
  pub closes : Bool
  pub first : Attempt
  pub more : List Attempt
  pub writes : Bool

-- How the loop of `connect` ends: it returns the error at once, or it leaves the loop.
pub data Dialing (M : Type 0) : Type 0 where
  given_up : Conn M → Dialing M
  ended : Conn M → Option ConnError → Dialing M

-- `retryErrors`
unfoldable pub retry_errors : ℕ → Bool
retry_errors status =
    nat_eq status 408
    || nat_eq status 425
    || nat_eq status 500
    || nat_eq status 502
    || nat_eq status 503
    || nat_eq status 504

abbrev pub is_final : Option ℕ → Bool
is_final none = false
is_final (some status) = not (retry_errors status)

module _ {M : Type 0} where
  unfoldable pub new_conn : M → Conn M
  new_conn nil_message = record {
    is_dialed = false;
    is_connected = false;
    ws = none;
    dial_message = nil_message;
    opened = 0;
    broken = false;
    log = [];
  }

  unfoldable pub establish : Conn M → Conn M
  establish c = record c {
    ws = some c.opened;
    is_connected = true;
    opened = suc c.opened;
    broken = false;
  }

  -- the loop of `connect` over the ticks
  unfoldable pub attempt : List Attempt → Attempt → Conn M → Dialing M
  unfolding establish
  attempt more established c = ended (establish c) none
  attempt [] (refused status) c = if is_final status then given_up c else ended c (some dial_error)
  attempt (a ∷ more) (refused status) c =
      let rest = attempt more a c in if is_final status then given_up c else rest

  -- `write`, where the package accepts the message if `works`. A websocket whose write has failed fails
  -- every later one. `none` is the panic on a nil websocket.
  unfoldable pub write_on : Option ℕ → Bool → M → Bool → Conn M → Option (Conn M × Option ConnError)
  write_on none greeting body works c = none
  write_on (some id) greeting body works c =
      if works && not c.broken
      then some (
        record c { log = record { socket = id; greeting = greeting; body = body } ∷ c.log },
        none,
      )
      else some (record c { broken = true }, some write_error)

  unfoldable pub write : Bool → M → Bool → Conn M → Option (Conn M × Option ConnError)
  unfolding write_on
  write greeting body works c = write_on c.ws greeting body works c

  unfoldable pub greet : Bool → Dialing M → Option (Conn M × Option ConnError)
  unfolding write
  greet works (given_up c) = some (c, some dial_error)
  greet works (ended c e) =
      if c.is_connected then write true c.dial_message works c else some (c, e)

  unfoldable pub connect : Reconnection → Conn M → Option (Conn M × Option ConnError)
  unfolding attempt greet
  connect r c = greet r.writes (attempt r.more r.first c)

  -- the method `close`
  unfoldable pub shut : Bool → Conn M → Conn M × Option ConnError
  shut works c =
      if c.is_connected
      then (
        record c { is_connected = false },
        elim c.ws [ none ↦ none | some id ↦ if works then none else some close_error ],
      )
      else (c, none)

  unfoldable pub reconnect_after :
      Reconnection → Conn M × Option ConnError → Option (Conn M × Option ConnError)
  unfolding connect
  reconnect_after r (c, some e) = some (c, some e)
  reconnect_after r (c, none) = connect r c

  unfoldable pub close_and_reconnect : Reconnection → Conn M → Option (Conn M × Option ConnError)
  unfolding shut reconnect_after
  close_and_reconnect r c = reconnect_after r (shut r.closes c)

  -- `url.ParseRequestURI` gives the URL, or `none` for an error.
  unfoldable pub dial : Option Url → Reconnection → M → Conn M → Option (Conn M × Option ConnError)
  unfolding connect
  dial none r message c = some (c, some malformed_url)
  dial (some u) r message c =
      if not (u.scheme == "ws") && not (u.scheme == "wss")
      then some (c, some malformed_url)
      else connect r (record c { dial_message = message; is_dialed = true })

  -- the second write of `WriteMessage`
  unfoldable pub write_again :
      M → Bool → Conn M × Option ConnError → Option (Conn M × Option ConnError)
  unfolding write
  write_again data_ works (c, some e) = some (c, some e)
  write_again data_ works (c, none) = write false data_ works c

  unfoldable pub after_write :
      M → Reconnection → Bool → Conn M × Option ConnError → Option (Conn M × Option ConnError)
  unfolding close_and_reconnect write_again
  after_write data_ r works (c, none) = some (c, none)
  after_write data_ r works (c, some e) = close_and_reconnect r c >>= write_again data_ works

  unfoldable pub after_check :
      M
      → Bool
      → Reconnection
      → Bool
      → Conn M × Option ConnError
      → Option (Conn M × Option ConnError)
  unfolding write after_write
  after_check data_ works r works' (c, some e) = some (c, some e)
  after_check data_ works r works' (c, none) =
      write false data_ works c >>= after_write data_ r works'

  -- `WriteMessage`, with what the network does in each of its up to two reconnections and writes
  unfoldable pub write_message :
      M → Reconnection → Bool → Reconnection → Bool → Conn M → Option (Conn M × Option ConnError)
  unfolding close_and_reconnect after_check
  write_message data_ r works r' works' c =
      if not c.is_dialed
      then some (c, some not_dialed)
      else ((if not c.is_connected then close_and_reconnect r c else some (c, none))
          >>= after_check data_ works r' works')

  -- `Close`
  unfoldable pub close_conn : Bool → Conn M → Conn M × Option ConnError
  unfolding shut
  close_conn works c = shut works (record c { is_dialed = false })

  -- `ws.DialMessage = hbm` of cmd/heartbeat/main.go
  unfoldable pub set_dial_message : M → Conn M → Conn M
  set_dial_message message c = record c { dial_message = message }

  -- `sendMessage` of cmd/heartbeat/main.go; the error is only logged.
  unfoldable pub send_message :
      Bool
      → M
      → Reconnection
      → Bool
      → Reconnection
      → Bool
      → Conn M
      → Option (Conn M × Option ConnError)
  unfolding write_message set_dial_message
  send_message is_registration hbm r works r' works' c =
      write_message hbm r works r' works' (if is_registration then set_dial_message hbm c else c)
