-- ===== src/Instance/Service.antt =====
-- What the service knows of an instance: the messages that the instance sends over one websocket, as the
-- loop of the service's handler reads them.
use mathlib.Core.Path.{subst}
use mathlib.Core.Option.{some-injective}
use locate.Prelude.{
  ℕ, String, ◌≡◌, ◌≢◌, refl, sym, ◌∙◌, ◌⊎◌, inl, inr, Bool, true, false, Option, some, List, [],
  ◌∷◌, ◌++◌, Result, ok, map, All, All-append, nat_eq, if◌then◌else◌, arith,
}
use locate.Prelude.Maps.{Map, lookup}
use locate.Url.{Url}
use locate.Host.{HostPackage}
use locate.Api.{Registration, HeartbeatMessage}
use locate.Connection.{Delivery, Reconnection}
use locate.Connection.Greeting.{IsGreeted, has_greeting}
use locate.Connection.Contents.{IsFit}
use locate.Tracker.{StoreClient, Tracker}
use locate.Tracker.Invariant.{IsKeyed}
use locate.Handler.Heartbeats.{message, Surroundings, handle_heartbeats, new_session}
use locate.Handler.Heartbeats.Deliveries.{handle_heartbeats-IsServing}
use locate.Handler.Heartbeats.Knowledge.{IsKnownTo, learn_all, known_of, IsFrom}
use locate.Instance.Loading.{LoadError}
use locate.Instance.{Tick, Instance, start, write}
use locate.Instance.Announce.{IsRegistration, IsReport}
use locate.Instance.Starting.{IsHeard, start-IsHeard}

-- The messages that were accepted on a websocket, the first one first.
unfoldable pub on_socket : ℕ → List (Delivery HeartbeatMessage) → List HeartbeatMessage
on_socket id [] = []
on_socket id (d ∷ log) =
    let earlier = on_socket id log in
    if nat_eq d.socket id then earlier ++ (d.body ∷ []) else earlier

-- The service reads all messages and knows what the instance sent last, or a write to Memorystore failed.
abbrev pub IsServed :
    {C : StoreClient} → String → Surroundings → Tracker C → List HeartbeatMessage → Type 0
IsServed {C} hostname E t ms =
    (ms ≡ [])
    ⊎ IsKnownTo C hostname (learn_all (known_of (lookup hostname t.instances)) ms)
        (handle_heartbeats E (map message ms) (new_session t))

module _ (hostname exp : String) (svcs : Map (List String)) where
  abbrev Fit : List (Delivery HeartbeatMessage) → Type 0
  Fit log = All (IsFit (IsRegistration hostname exp svcs) (IsReport hostname exp svcs)) log

  -- Nothing, or a registration and then reports.
  Begins : List HeartbeatMessage → Type 0
  Begins [] = Unit
  Begins (m ∷ ms) = IsRegistration hostname exp svcs m × All (IsReport hostname exp svcs) ms

  abbrev has_some : List HeartbeatMessage → Bool
  has_some [] = false
  has_some (m ∷ ms) = true

  has_some-later :
      (ms : List HeartbeatMessage) (m : HeartbeatMessage) → has_some (ms ++ (m ∷ [])) ≡ true
  has_some-later [] m = refl
  has_some-later (m' ∷ ms) m = refl

  has_some-on_socket :
      (id : ℕ) (log : List (Delivery HeartbeatMessage))
      → has_greeting id log ≡ true
      → has_some (on_socket id log) ≡ true
  unfolding has_greeting on_socket
  has_some-on_socket id [] h = h
  has_some-on_socket id (d ∷ log) h = go (nat_eq d.socket id) refl (has_some-on_socket id log)
    where
      go :
          (b : Bool)
          → nat_eq d.socket id ≡ b
          → (has_greeting id log ≡ true → has_some (on_socket id log) ≡ true)
          → has_some (if b then on_socket id log ++ (d.body ∷ []) else on_socket id log) ≡ true
      go true e ih = has_some-later (on_socket id log) d.body
      go false e ih = ih (ground (arith, e, h))

  Begins-later :
      (ms : List HeartbeatMessage) (m : HeartbeatMessage)
      → Begins ms
      → (has_some ms ≡ true) ⊎ IsRegistration hostname exp svcs m
      → IsReport hostname exp svcs m
      → Begins (ms ++ (m ∷ []))
  unfolding Begins
  Begins-later [] m b (inl h) report = cc
  Begins-later [] m b (inr own) report = (own, tt)
  Begins-later (m' ∷ ms) m (own, reports) h report =
      (own, All-append (IsReport hostname exp svcs) ms (m ∷ []) reports (report, tt))

  on_socket-Begins :
      (id : ℕ) (log : List (Delivery HeartbeatMessage))
      → IsGreeted log
      → Fit log
      → Begins (on_socket id log)
  unfolding on_socket IsGreeted
  on_socket-Begins id [] h fit = unfold Begins in tt
  on_socket-Begins id (d ∷ log) (g, h) ((own, report), fit) =
      go (nat_eq d.socket id) refl (d.greeting) refl (on_socket-Begins id log h fit)
    where
      go :
          (b : Bool)
          → nat_eq d.socket id ≡ b
          → (greeting : Bool) → d.greeting ≡ greeting
          → Begins (on_socket id log)
          → Begins (if b then on_socket id log ++ (d.body ∷ []) else on_socket id log)
      go false e greeting e' ih = ih
      go true e true e' ih = Begins-later (on_socket id log) d.body ih (inr (own e')) report
      go true e false e' ih =
          let heard : has_greeting d.socket log ≡ true = ground (arith, g, e') in
          let same : d.socket ≡ id = ground (arith, e) in
          let heard' : has_greeting id log ≡ true =
            subst (λ j. has_greeting j log ≡ true) same heard in
          Begins-later (on_socket id log) d.body ih (inl (has_some-on_socket id log heard')) report

  IsReport-IsFrom : (m : HeartbeatMessage) → IsReport hostname exp svcs m → IsFrom hostname m
  IsReport-IsFrom m (inl (r, e, own)) = rw e own.named
  IsReport-IsFrom m (inr (score, e)) = rw e tt

  All-IsFrom :
      (ms : List HeartbeatMessage) → All (IsReport hostname exp svcs) ms → All (IsFrom hostname) ms
  All-IsFrom [] h = tt
  All-IsFrom (m ∷ ms) (r, rs) = (IsReport-IsFrom m r, All-IsFrom ms rs)

  module _ {C : StoreClient} (E : Surroundings) (given : hostname ≢ "") (t : Tracker C)
      (keyed : IsKeyed t.instances) where
    Begins-IsServed : (ms : List HeartbeatMessage) → Begins ms → IsServed hostname E t ms
    unfolding Begins
    Begins-IsServed [] b = inl refl
    Begins-IsServed (m ∷ ms) ((r, e, own), reports) = inr (
        handle_heartbeats-IsServing E hostname given m ms r t (rw e refl) own.named
          (All-IsFrom ms reports) keyed)

module _ (H : HostPackage) (equal : Registration → Registration → Bool)
    (reports : (a b : Registration) → equal a b ≡ true → a ≡ b) {C : StoreClient} where
  -- The service never closes a connection of an instance because of what the instance sends, only where a
  -- write to Memorystore fails: else it reads all messages that the instance sent over any one websocket,
  -- whatever the network, the downloads and the health checks did, and then its entry for the instance has
  -- the registration and the health that were sent last on that websocket, and the health that it had
  -- before where none was sent. The host name parses and is not empty with its service, the tracker has
  -- every instance under its own host name, and nothing else changes it in between.
  pub start-IsServed :
      (url : Option Url) (has_url : Bool) (hostname exp : String) (svcs : Map (List String))
      (r : Reconnection) (got : Result LoadError (Map Registration)) (n : H.Name)
      (i i' : Instance H) (ticks : List Tick) (id : ℕ) (E : Surroundings) (t : Tracker C)
      → H.parse hostname ≡ some n
      → H.string_with_service n ≢ ""
      → start H equal url has_url hostname exp svcs r got ≡ ok i
      → write H equal ticks i ≡ some i'
      → IsKeyed t.instances
      → IsServed (H.string_with_service n) E t (on_socket id i'.conn.log)
  start-IsServed url has_url hostname exp svcs r got n i i' ticks id E t e given started ran keyed =
      let (j, e', heard) =
        start-IsHeard H equal reports url has_url hostname exp svcs r got n i ticks e given
          started in
      let same : j ≡ i' = some-injective _ _ (sym e' ∙ ran) in
      let heard' : IsHeard (H.string_with_service n) exp svcs i' =
        subst (λ x. IsHeard (H.string_with_service n) exp svcs x) same heard in
      Begins-IsServed (H.string_with_service n) exp svcs E given t keyed (on_socket id i'.conn.log)
        (on_socket-Begins (H.string_with_service n) exp svcs id i'.conn.log heard'.greeted
          heard'.fit)
