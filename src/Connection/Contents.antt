-- ===== src/Connection/Contents.antt =====
-- What the accepted messages of a connection are.
use mathlib.Core.Path.{subst}
use locate.Prelude.{
  ℕ, sym, if_either, ◌≡◌, refl, Bool, true, false, not, ◌&&◌, Option, none, some, List, [], ◌∷◌,
  All, if◌then◌else◌, ◌==◌, ◌>>=◌,
}
use locate.Url.{Url}
use locate.Connection.{
  Attempt, established, refused, ConnError, Delivery, Conn, Reconnection, Dialing, given_up, ended,
  is_final, new_conn, establish, attempt, write_on, write, greet, connect, shut, reconnect_after,
  close_and_reconnect, dial, write_again, after_write, after_check, write_message, close_conn,
}

-- `Greeting` holds for what `connect` sends and `Message` for whatever is sent.
module _ {M : Type 0} (Greeting Message : M → Type 0) where
  abbrev pub IsFit : Delivery M → Type 0
  IsFit d = (d.greeting ≡ true → Greeting d.body) × Message d.body

  -- The connection greets with the message, and all it has sent is fit.
  pub record Carries (dial_message : M) (c : Conn M) : Type 0 where
    pub greets : c.dial_message ≡ dial_message
    pub fit : All IsFit c.log

  abbrev pub Keeps : M → Option (Conn M × Option ConnError) → Type 0
  Keeps m none = Unit
  Keeps m (some (c, e)) = Carries m c

  module _ (m : M) where
    Keeps-bind :
        (o : Option (Conn M × Option ConnError))
        (f : Conn M × Option ConnError → Option (Conn M × Option ConnError))
        → Keeps m o
        → ((c : Conn M) (e : Option ConnError) → Carries m c → Keeps m (f (c, e)))
        → Keeps m (o >>= f)
    Keeps-bind none f h k = tt
    Keeps-bind (some (c, e)) f h k = k c e h

    write-Keeps :
        (is_greeting : Bool) (body : M) (works : Bool) (c : Conn M)
        → (is_greeting ≡ true → Greeting body)
        → Message body
        → Carries m c
        → Keeps m (write is_greeting body works c)
    unfolding write write_on
    write-Keeps is_greeting body works c g q h = on c.ws
      where
        on : (ws : Option ℕ) → Keeps m (write_on ws is_greeting body works c)
        on none = tt
        on (some id) =
            if_either (Keeps m) (works && not c.broken)
              (record { greets = h.greets; fit = ((g, q), h.fit) })
              (record { greets = h.greets; fit = h.fit })

    CarriedBy : Dialing M → Type 0
    CarriedBy (given_up c) = Carries m c
    CarriedBy (ended c e) = Carries m c

    attempt-Carries :
        (more : List Attempt) (first : Attempt) (c : Conn M)
        → Carries m c
        → CarriedBy (attempt more first c)
    unfolding attempt establish CarriedBy
    attempt-Carries more established c h = record { greets = h.greets; fit = h.fit }
    attempt-Carries [] (refused status) c h = if_either CarriedBy (is_final status) h h
    attempt-Carries (a ∷ more) (refused status) c h =
        if_either CarriedBy (is_final status) h (attempt-Carries more a c h)

    shut-Carries : (works : Bool) (c : Conn M) → Carries m c → Carries m (shut works c).0
    unfolding shut
    shut-Carries works c h =
        if_either {A = Conn M × Option ConnError} (λ p. Carries m p.0) c.is_connected
          (record { greets = h.greets; fit = h.fit }) h

    module _ (greeting : Greeting m) (message : Message m) where
      connect-Keeps : (r : Reconnection) (c : Conn M) → Carries m c → Keeps m (connect r c)
      unfolding connect greet CarriedBy
      connect-Keeps r c h = go (attempt r.more r.first c) (attempt-Carries r.more r.first c h)
        where
          go : (p : Dialing M) → CarriedBy p → Keeps m (greet r.writes p)
          go (given_up c') k = k
          go (ended c' e) k =
              if_either (Keeps m) c'.is_connected
                (write-Keeps true c'.dial_message r.writes c'
                  (λ _. subst Greeting (sym k.greets) greeting)
                  (subst Message (sym k.greets) message) k)
                k

      close_and_reconnect-Keeps :
          (r : Reconnection) (c : Conn M) → Carries m c → Keeps m (close_and_reconnect r c)
      unfolding close_and_reconnect reconnect_after
      close_and_reconnect-Keeps r c h = go (shut r.closes c) (shut-Carries r.closes c h)
        where
          go : (p : Conn M × Option ConnError) → Carries m p.0 → Keeps m (reconnect_after r p)
          go (c', some e) k = k
          go (c', none) k = connect-Keeps r c' k

      module _ (body : M) (sent : Message body) where
        write_body-Keeps :
            (works : Bool) (c : Conn M) → Carries m c → Keeps m (write false body works c)
        write_body-Keeps works c h = write-Keeps false body works c (λ e. cc) sent h

        write_again-Keeps :
            (works : Bool) (c : Conn M) (e : Option ConnError)
            → Carries m c
            → Keeps m (write_again body works (c, e))
        unfolding write_again
        write_again-Keeps works c (some e) h = h
        write_again-Keeps works c none h = write_body-Keeps works c h

        after_write-Keeps :
            (r : Reconnection) (works : Bool) (c : Conn M) (e : Option ConnError)
            → Carries m c
            → Keeps m (after_write body r works (c, e))
        unfolding after_write
        after_write-Keeps r works c none h = h
        after_write-Keeps r works c (some e) h =
            Keeps-bind (close_and_reconnect r c) (write_again body works)
              (close_and_reconnect-Keeps r c h) (write_again-Keeps works)

        after_check-Keeps :
            (works : Bool) (r : Reconnection) (works' : Bool) (c : Conn M) (e : Option ConnError)
            → Carries m c
            → Keeps m (after_check body works r works' (c, e))
        unfolding after_check
        after_check-Keeps works r works' c (some e) h = h
        after_check-Keeps works r works' c none h =
            Keeps-bind (write false body works c) (after_write body r works')
              (write_body-Keeps works c h) (after_write-Keeps r works')

        -- `WriteMessage` of a fit message sends nothing that is not.
        pub write_message-Keeps :
            (r : Reconnection) (works : Bool) (r' : Reconnection) (works' : Bool) (c : Conn M)
            → Carries m c
            → Keeps m (write_message body r works r' works' c)
        unfolding write_message
        write_message-Keeps r works r' works' c h = if_either (Keeps m) (not c.is_dialed) h (
            Keeps-bind (if not c.is_connected then close_and_reconnect r c else some (c, none))
              (after_check body works r' works')
              (if_either (Keeps m) (not c.is_connected) (close_and_reconnect-Keeps r c h) h)
              (after_check-Keeps works r' works'))

      pub close_conn-Carries :
          (works : Bool) (c : Conn M) → Carries m c → Carries m (close_conn works c).0
      unfolding close_conn
      close_conn-Carries works c h =
          shut-Carries works (record c { is_dialed = false })
            (record { greets = h.greets; fit = h.fit })

      Fresh : Option (Conn M × Option ConnError) → Type 0
      Fresh none = Unit
      Fresh (some (c, none)) = Carries m c
      Fresh (some (c, some e)) = Unit

      Keeps-Fresh : (o : Option (Conn M × Option ConnError)) → Keeps m o → Fresh o
      unfolding Fresh
      Keeps-Fresh none h = tt
      Keeps-Fresh (some (c, none)) h = h
      Keeps-Fresh (some (c, some e)) h = tt

      -- A successful `Dial` of a new connection
      pub dial-Carries :
          (nil : M) (url : Option Url) (r : Reconnection) (c : Conn M)
          → dial url r m (new_conn nil) ≡ some (c, none)
          → Carries m c
      unfolding dial new_conn Fresh
      dial-Carries nil url r c e = subst Fresh e (go url)
        where
          go : (url : Option Url) → Fresh (dial url r m (new_conn nil))
          go none = tt
          go (some u) =
              if_either Fresh (not (u.scheme == "ws") && not (u.scheme == "wss")) tt
                (Keeps-Fresh _ (connect-Keeps r _ (record { greets = refl; fit = tt })))
