-- ===== src/Instance/Starting.antt =====
-- From the start of an instance to the end of its loop.
use mathlib.Core.Path.{subst}
use locate.Prelude.{
  String, ◌≡◌, ◌≢◌, refl, sym, ap, ◌∙◌, inl, Bool, true, false, Option, none, some, List, Result,
  ok, err, All, if◌then◌else◌,
}
use locate.Prelude.Maps.{Map}
use locate.Url.{Url}
use locate.Host.{HostPackage}
use locate.Api.{Registration, HeartbeatMessage}
use locate.Connection.{ConnError, Conn, Reconnection, new_conn, dial}
use locate.Connection.Greeting.{IsGreeted}
use locate.Connection.Steps.{Safe, new_conn-IsSound, dial-Safe}
use locate.Connection.Contents.{IsFit, dial-Carries}
use locate.Instance.Loading.{
  Loader, LoadError, zero_registration, new_loader, announced, get_registration,
}
use locate.Instance.Loaded.{Loads, get_registration-Loads}
use locate.Instance.{
  Tick, registration_message, Instance, Stop, write, dialed, connect, start_loader, start,
}
use locate.Instance.Announce.{
  IsRegistration, IsReport, IsConfigured, IsRunning, Going, write-Going, announced-IsRegistration,
  configured,
}

module _ (hostname exp : String) (svcs : Map (List String)) (H : HostPackage)
    (equal : Registration → Registration → Bool) where
  abbrev Configured : Loader H → Type 0
  Configured loader = IsConfigured hostname exp svcs H equal loader

  -- What `GetRegistration` returns first is a registration, since the loader has a host name.
  Started : Result Stop (Instance H) → Type 0
  Started (err e) = Unit
  Started (ok i) = IsRunning hostname exp svcs H equal i

  module _ (reports : (a b : Registration) → equal a b ≡ true → a ≡ b) (given : hostname ≢ "") where
    dialed-Started :
        (loader : Loader H) (url : Option Url) (r : Reconnection)
        → Configured loader
        → loader.reg.hostname ≡ hostname
        → Started (
            dialed H equal loader (
              dial url r
                (registration_message (some (announced H loader loader.reg)))
                (new_conn (registration_message none))))
    unfolding Started dialed
    dialed-Started loader url r c e =
        go (dial url r m (new_conn (registration_message none))) refl
          (dial-Safe url r m (new_conn (registration_message none)) (new_conn-IsSound _))
      where
        m : HeartbeatMessage
        m = registration_message (some (announced H loader loader.reg))

        go :
            (o : Option (Conn HeartbeatMessage × Option ConnError))
            → dial url r m (new_conn (registration_message none)) ≡ o
            → Safe o
            → Started (dialed H equal loader o)
        go none d safe = tt
        go (some (conn, some e')) d safe = tt
        go (some (conn, none)) d safe = record {
          configured = c;
          loaded = e;
          linked = record {
            sound = safe;
            carries =
                dial-Carries (IsRegistration hostname exp svcs) (IsReport hostname exp svcs) m
                  (announced-IsRegistration hostname exp svcs H equal loader loader.reg c e)
                  (inl (announced-IsRegistration hostname exp svcs H equal loader loader.reg c e)) _
                  url r conn d;
          };
        }

    connect-Started :
        (loader : Loader H) (url : Option Url) (r : Reconnection)
        (p : Loader H × Result LoadError (Option Registration))
        → Configured loader
        → loader.reg ≡ zero_registration
        → Loads H equal loader p
        → Started (connect H equal url r p)
    unfolding Started connect
    connect-Started loader url r (loader', err e) c z l = tt
    connect-Started loader url r (loader', ok none) c z (l, v, named, same) = absurd (
        given
          (sym (ap Registration.hostname (sym z ∙ reports loader.reg v same) ∙ (named ∙ c.named))))
    connect-Started loader url r (loader', ok (some reg)) c z (v, named, l, e) =
        rw (l, e)
          (dialed-Started (record loader { reg = v }) url r
            (configured hostname exp svcs H equal v c) (named ∙ c.named))

-- The first message on every websocket is a registration under the instance's own host name, with the
-- experiment and the services of its flags; every message is such a registration or a health score; and
-- what a new websocket would be greeted with is the registration loaded last.
pub record IsHeard (hostname exp : String) (svcs : Map (List String)) {H : HostPackage}
    (i : Instance H) : Type 0 where
  pub greeted : IsGreeted i.conn.log
  pub fit : All (IsFit (IsRegistration hostname exp svcs) (IsReport hostname exp svcs)) i.conn.log
  pub greets : i.conn.dial_message ≡ registration_message (some (announced H i.loader i.loader.reg))
  pub loaded : i.loader.reg.hostname ≡ hostname

-- `equal` is `cmp.Equal`, which reports only equal values as equal.
module _ (H : HostPackage) (equal : Registration → Registration → Bool)
    (reports : (a b : Registration) → equal a b ≡ true → a ≡ b) where
  fresh : H.Name → String → Map (List String) → Loader H
  fresh n exp svcs = record { hostname = n; exp = exp; svcs = svcs; reg = zero_registration }

  new_loader-parsed :
      (has_url : Bool) (hostname exp : String) (svcs : Map (List String)) (n : H.Name)
      → H.parse hostname ≡ some n
      → new_loader H has_url hostname exp svcs ≡ (if has_url then some (fresh n exp svcs) else none)
  unfolding new_loader fresh
  new_loader-parsed has_url hostname exp svcs n e = rw (e, new_loader) refl

  start-Started :
      (url : Option Url) (has_url : Bool) (hostname exp : String) (svcs : Map (List String))
      (r : Reconnection) (got : Result LoadError (Map Registration)) (n : H.Name)
      → H.parse hostname ≡ some n
      → H.string_with_service n ≢ ""
      → Started
          (H.string_with_service n)
          exp
          svcs
          H
          equal
          (start H equal url has_url hostname exp svcs r got)
  unfolding start start_loader Started fresh
  start-Started url has_url hostname exp svcs r got n e given =
      subst
        (λ o. Started (H.string_with_service n) exp svcs H equal (start_loader H equal url r got o))
        (sym (new_loader-parsed has_url hostname exp svcs n e)) (go has_url)
    where
      go :
          (b : Bool)
          → Started
              (H.string_with_service n)
              exp
              svcs
              H
              equal
              (start_loader H equal url r got (if b then some (fresh n exp svcs) else none))
      go false = tt
      go true =
          connect-Started (H.string_with_service n) exp svcs H equal reports given
            (fresh n exp svcs) url r (get_registration H equal got (fresh n exp svcs))
            (record { named = refl; experiment = refl; services = refl }) refl
            (get_registration-Loads H equal got (fresh n exp svcs))

  -- Once an instance is started, it does not panic whatever the network, the downloads and the health
  -- checks do, and however it ends, and the service hears its registration first on every websocket, and
  -- only registrations and health scores after that. Its host name parses and is not empty with its
  -- service.
  pub start-IsHeard :
      (url : Option Url) (has_url : Bool) (hostname exp : String) (svcs : Map (List String))
      (r : Reconnection) (got : Result LoadError (Map Registration)) (n : H.Name) (i : Instance H)
      (ticks : List Tick)
      → H.parse hostname ≡ some n
      → H.string_with_service n ≢ ""
      → start H equal url has_url hostname exp svcs r got ≡ ok i
      → (i' : Instance H) × (write H equal ticks i ≡ some i')
        × IsHeard (H.string_with_service n) exp svcs i'
  unfolding Started Going
  start-IsHeard url has_url hostname exp svcs r got n i ticks e given started =
      go (write H equal ticks i) (
        write-Going (H.string_with_service n) exp svcs H equal ticks i (
          subst (Started (H.string_with_service n) exp svcs H equal) started
            (start-Started url has_url hostname exp svcs r got n e given)))
    where
      go :
          (o : Option (Instance H))
          → Going (H.string_with_service n) exp svcs H equal o
          → (i' : Instance H) × (o ≡ some i') × IsHeard (H.string_with_service n) exp svcs i'
      go none h = elim h [ ]
      go (some i') h = (
        i',
        refl,
        record {
          greeted = h.linked.sound.greeted;
          fit = h.linked.carries.fit;
          greets = h.linked.carries.greets;
          loaded = h.loaded;
        },
      )
