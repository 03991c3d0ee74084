-- ===== src/Instance/Announce.antt =====
-- What an instance tells the service, over any sequence of ticks.
use locate.Prelude.{
  String, ◌≡◌, refl, ◌∙◌, ◌⊎◌, inl, inr, Bool, true, false, Option, none, some, List, [], ◌∷◌,
  ◌>>=◌, Result, ok, err, if_either,
}
use locate.Prelude.Maps.{Map}
use locate.Float.{Float64}
use locate.Host.{HostPackage}
use locate.Api.{Registration, HeartbeatMessage}
use locate.Connection.{ConnError, Conn, write_message, close_conn, set_dial_message, send_message}
use locate.Connection.Greeting.{IsSound}
use locate.Connection.Steps.{Safe, write_message-Safe, set_dial_message-IsSound, close_conn-IsSound}
use locate.Connection.Contents.{Carries, Keeps, write_message-Keeps, close_conn-Carries}
use locate.Instance.Loading.{Loader, LoadError, announced, get_registration}
use locate.Instance.Loaded.{Loads, get_registration-Loads}
use locate.Instance.{
  Weather, Tick, context_done, sigterm, load_tick, beat_tick, no_score, registration_message,
  health_message, Instance, send, leave, announce, on_tick, write,
}

-- The registration is of this host, with the experiment and the services of the flags.
pub record IsOwn (hostname exp : String) (svcs : Map (List String)) (r : Registration)
    : Type 0 where
  pub named : r.hostname ≡ hostname
  pub experiment : r.experiment ≡ exp
  pub services : r.services ≡ svcs

module _ (hostname exp : String) (svcs : Map (List String)) where
  -- A message that registers the instance.
  abbrev pub IsRegistration : HeartbeatMessage → Type 0
  IsRegistration m =
      (r : Registration) × (m ≡ registration_message (some r)) × IsOwn hostname exp svcs r

  -- A registration of the instance or a health score.
  abbrev pub IsReport : HeartbeatMessage → Type 0
  IsReport m = IsRegistration m ⊎ ((score : Float64) × (m ≡ health_message score))

  -- The connection is sound, greets with the message, and has sent only reports, and only registrations
  -- as greetings.
  pub record IsLinked (m : HeartbeatMessage) (conn : Conn HeartbeatMessage) : Type 0 where
    pub sound : IsSound conn
    pub carries : Carries IsRegistration IsReport m conn

  Sent : HeartbeatMessage → Option (Conn HeartbeatMessage) → Type 0
  Sent m none = ⊥
  Sent m (some conn) = IsLinked m conn

  write_message-Sent :
      (m body : HeartbeatMessage) (w : Weather) (conn : Conn HeartbeatMessage)
      → IsRegistration m
      → IsReport body
      → IsLinked m conn
      → Sent m
          (write_message body w.before w.writes w.again w.writes_again conn >>= λ sent. some sent.0)
  unfolding Sent
  write_message-Sent m body w conn own report h =
      go (write_message body w.before w.writes w.again w.writes_again conn)
        (write_message-Safe body w.before w.writes w.again w.writes_again conn h.sound)
        (write_message-Keeps IsRegistration IsReport m own (inl own) body report w.before w.writes
          w.again w.writes_again conn h.carries)
    where
      go :
          (o : Option (Conn HeartbeatMessage × Option ConnError))
          → Safe o
          → Keeps IsRegistration IsReport m o
          → Sent m (o >>= λ sent. some sent.0)
      go none safe keeps = safe
      go (some (conn', e)) safe keeps = record { sound = safe; carries = keeps }

  send-Sent :
      (m : HeartbeatMessage) (score : Float64) (w : Weather) (conn : Conn HeartbeatMessage)
      → IsRegistration m
      → IsLinked m conn
      → Sent m (send false (health_message score) w conn)
  unfolding send send_message
  send-Sent m score w conn own h =
      write_message-Sent m (health_message score) w conn own (inr (score, refl)) h

  -- a new registration
  send_registration-Sent :
      (m m' : HeartbeatMessage) (w : Weather) (conn : Conn HeartbeatMessage)
      → IsRegistration m'
      → IsLinked m conn
      → Sent m' (send true m' w conn)
  unfolding send send_message set_dial_message
  send_registration-Sent m m' w conn own h =
      write_message-Sent m' m' w (set_dial_message m' conn) own (inl own) (record {
        sound = set_dial_message-IsSound m' conn h.sound;
        carries = record { greets = refl; fit = h.carries.fit };
      })

  module _ (H : HostPackage) (equal : Registration → Registration → Bool) where
    -- The loader is that of the flags.
    pub record IsConfigured (loader : Loader H) : Type 0 where
      pub named : H.string_with_service loader.hostname ≡ hostname
      pub experiment : loader.exp ≡ exp
      pub services : loader.svcs ≡ svcs

    -- The instance has loaded a registration of its host, and greets with the last one that it loaded.
    pub record IsRunning (i : Instance H) : Type 0 where
      pub configured : IsConfigured i.loader
      pub loaded : i.loader.reg.hostname ≡ hostname
      pub linked : IsLinked (registration_message (some (announced H i.loader i.loader.reg))) i.conn

    unfoldable pub Going : Option (Instance H) → Type 0
    Going none = ⊥
    Going (some i) = IsRunning i

    pub announced-IsRegistration :
        (loader : Loader H) (v : Registration)
        → IsConfigured loader
        → v.hostname ≡ hostname
        → IsRegistration (registration_message (some (announced H loader v)))
    announced-IsRegistration loader v c e =
        (_, refl, record { named = e; experiment = c.experiment; services = c.services })

    then-Going :
        (m : HeartbeatMessage) (next : Conn HeartbeatMessage → Instance H)
        (o : Option (Conn HeartbeatMessage))
        → Sent m o
        → ((conn : Conn HeartbeatMessage) → IsLinked m conn → IsRunning (next conn))
        → Going (o >>= λ conn. some (next conn))
    unfolding Sent Going
    then-Going m next none h k = h
    then-Going m next (some conn) h k = k conn h

    dial_message-IsRegistration :
        (i : Instance H)
        → IsRunning i
        → IsRegistration (registration_message (some (announced H i.loader i.loader.reg)))
    dial_message-IsRegistration i h =
        announced-IsRegistration i.loader i.loader.reg h.configured h.loaded

    leave-Going :
        (w : Weather) (closes : Bool) (i : Instance H)
        → IsRunning i
        → Going (leave H equal w closes i)
    unfolding leave
    leave-Going w closes i h =
        let own = dial_message-IsRegistration i h in
        then-Going _ (λ conn. record i { conn = (close_conn closes conn).0; ended = true })
          (send false (health_message no_score) w i.conn)
          (send-Sent _ no_score w i.conn own h.linked)
          (λ conn linked. record {
            configured = h.configured;
            loaded = h.loaded;
            linked = record {
              sound = close_conn-IsSound closes conn linked.sound;
              carries =
                  close_conn-Carries IsRegistration IsReport _ own (inl own) closes conn
                    linked.carries;
            };
          })

    idle : (i : Instance H) → IsRunning i → IsRunning (record i { ended = false })
    idle i h = record { configured = h.configured; loaded = h.loaded; linked = h.linked }

    pub configured :
        {loader : Loader H} (v : Registration)
        → IsConfigured loader
        → IsConfigured (record loader { reg = v })
    configured v c = record { named = c.named; experiment = c.experiment; services = c.services }

    announce-Going :
        (w : Weather) (i : Instance H) (p : Loader H × Result LoadError (Option Registration))
        → IsRunning i
        → Loads H equal i.loader p
        → Going (announce H equal w i.conn p)
    unfolding announce Going
    announce-Going w i (loader, err e) h l = rw l (idle i h)
    announce-Going w i (loader, ok none) h (l, v, named, same) = rw l (idle i h)
    announce-Going w i (loader, ok (some reg)) h (v, named, l, r) =
        let e : v.hostname ≡ hostname = named ∙ h.configured.named in
        let own = announced-IsRegistration i.loader v h.configured e in
        rw (l, r)
          (then-Going _
            (λ conn'. record { conn = conn'; loader = record i.loader { reg = v }; ended = false })
            (send true (registration_message (some (announced H i.loader v))) w i.conn)
            (send_registration-Sent _ _ w i.conn own h.linked)
            (λ conn' linked. record {
              configured = configured v h.configured;
              loaded = e;
              linked = linked;
            }))

    on_tick-Going : (tick : Tick) (i : Instance H) → IsRunning i → Going (on_tick H equal tick i)
    unfolding on_tick
    on_tick-Going (context_done w closes) i h = leave-Going w closes i h
    on_tick-Going (sigterm w closes) i h = leave-Going w closes i h
    on_tick-Going (load_tick got w) i h =
        announce-Going w i (get_registration H equal got i.loader) h
          (get_registration-Loads H equal got i.loader)
    on_tick-Going (beat_tick score w) i h =
        then-Going _ (λ conn. record i { conn = conn }) (send false (health_message score) w i.conn)
          (send-Sent _ score w i.conn (dial_message-IsRegistration i h) h.linked)
          (λ conn linked. record { configured = h.configured; loaded = h.loaded; linked = linked })

    then_write :
        (o : Option (Instance H)) (rest : Instance H → Option (Instance H))
        → Going o
        → ((i : Instance H) → IsRunning i → Going (rest i))
        → Going (o >>= rest)
    unfolding Going
    then_write none rest h k = h
    then_write (some i) rest h k = k i h

    pub write-Going :
        (ticks : List Tick) (i : Instance H) → IsRunning i → Going (write H equal ticks i)
    unfolding write Going
    write-Going [] i h = h
    write-Going (tick ∷ ticks) i h = if_either Going i.ended h (
        then_write (on_tick H equal tick i) (write H equal ticks) (on_tick-Going tick i h)
          (write-Going ticks))
