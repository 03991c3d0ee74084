-- ===== src/Connection/Steps.antt =====
-- Any sequence of calls of a connection.
use mathlib.Core.Path.{subst}
use locate.Prelude.{
  ◌≡◌, refl, Bool, true, false, not, ◌&&◌, Option, none, some, ◌==◌, if◌then◌else◌, ◌>>=◌,
}
use locate.Url.{Url}
use locate.Connection.{
  ConnError, malformed_url, not_dialed, Conn, Reconnection, new_conn, write, connect,
  close_and_reconnect, dial, write_again, after_write, after_check, write_message, close_conn,
  set_dial_message,
}
use locate.Connection.Greeting.{
  IsGreeted, IsSound, IsDone, connect-IsDone, close_and_reconnect-IsDone, write-message,
  shut-IsSound,
}

module _ {M : Type 0} where
  -- An operation does not panic and leaves the connection sound.
  abbrev pub Safe : Option (Conn M × Option ConnError) → Type 0
  Safe none = ⊥
  Safe (some (c, e)) = IsSound c

  IsDone-Safe : (o : Option (Conn M × Option ConnError)) → IsDone o → Safe o
  IsDone-Safe none h = h
  IsDone-Safe (some (c, none)) h = h.0
  IsDone-Safe (some (c, some e)) h = h

  Safe-some :
      (o : Option (Conn M × Option ConnError))
      → Safe o
      → (c : Conn M) × (e : Option ConnError) × (o ≡ some (c, e))
  Safe-some none h = elim h [ ]
  Safe-some (some (c, e)) h = (c, e, refl)

  pub new_conn-IsSound : (message : M) → IsSound (new_conn message)
  unfolding new_conn IsGreeted
  new_conn-IsSound message = record { linked = λ h. cc; greeted = tt; current = λ h. cc }

  pub set_dial_message-IsSound :
      (message : M) (c : Conn M) → IsSound c → IsSound (set_dial_message message c)
  unfolding set_dial_message
  set_dial_message-IsSound message c h = record {
    linked = h.linked;
    greeted = h.greeted;
    current = h.current;
  }

  pub close_conn-IsSound : (works : Bool) (c : Conn M) → IsSound c → IsSound (close_conn works c).0
  unfolding close_conn
  close_conn-IsSound works c h =
      shut-IsSound works (record c { is_dialed = false })
        (record { linked = h.linked; greeted = h.greeted; current = h.current })

  pub dial-Safe :
      (url : Option Url) (r : Reconnection) (message : M) (c : Conn M)
      → IsSound c
      → Safe (dial url r message c)
  unfolding dial
  dial-Safe none r message c h = h
  dial-Safe (some u) r message c h = go (not (u.scheme == "ws") && not (u.scheme == "wss"))
    where
      go :
          (b : Bool)
          → Safe (
              if b
              then some (c, some malformed_url)
              else connect r (record c { dial_message = message; is_dialed = true }))
      go true = h
      go false = IsDone-Safe _ (
          connect-IsDone r (record c { dial_message = message; is_dialed = true })
            (record { linked = h.linked; greeted = h.greeted; current = h.current }))

  module _ (message : M) (works : Bool) where
    write_again-Safe :
        (o : Option (Conn M × Option ConnError)) → IsDone o → Safe (o >>= write_again message works)
    unfolding write_again
    write_again-Safe none h = h
    write_again-Safe (some (c, some e)) h = h
    write_again-Safe (some (c, none)) (h, up) =
        IsDone-Safe (write false message works c) (write-message message works c up h)

    after_write-Safe :
        (r : Reconnection) (o : Option (Conn M × Option ConnError))
        → IsDone o
        → Safe (o >>= after_write message r works)
    unfolding after_write
    after_write-Safe r none h = h
    after_write-Safe r (some (c, none)) h = h.0
    after_write-Safe r (some (c, some e)) h =
        write_again-Safe (close_and_reconnect r c) (close_and_reconnect-IsDone r c h)

  after_check-Safe :
      (message : M) (works works' : Bool) (r : Reconnection)
      (o : Option (Conn M × Option ConnError))
      → IsDone o
      → Safe (o >>= after_check message works r works')
  unfolding after_check
  after_check-Safe message works works' r none h = h
  after_check-Safe message works works' r (some (c, some e)) h = h
  after_check-Safe message works works' r (some (c, none)) (h, up) =
      after_write-Safe message works' r (write false message works c)
        (write-message message works c up h)

  -- `WriteMessage` never meets a nil websocket.
  pub write_message-Safe :
      (message : M) (r : Reconnection) (works : Bool) (r' : Reconnection) (works' : Bool)
      (c : Conn M)
      → IsSound c
      → Safe (write_message message r works r' works' c)
  unfolding write_message
  write_message-Safe message r works r' works' c h = go c.is_dialed c.is_connected refl
    where
      go :
          (dialed connected : Bool)
          → c.is_connected ≡ connected
          → Safe (
              if not dialed
              then some (c, some not_dialed)
              else ((if not connected then close_and_reconnect r c else some (c, none))
                  >>= after_check message works r' works'))
      go false connected e = h
      go true true e = after_check-Safe message works works' r' (some (c, none)) (h, e)
      go true false e =
          after_check-Safe message works works' r' (close_and_reconnect r c)
            (close_and_reconnect-IsDone r c h)

  -- One call of the connection's methods that returns, or the assignment of a new dial message.
  pub data Step (c : Conn M) : Conn M → Type 0 where
    dials :
        {c' : Conn M} {e : Option ConnError} (url : Option Url) (r : Reconnection) (message : M)
        → dial url r message c ≡ some (c', e)
        → Step c c'
    writes :
        {c' : Conn M} {e : Option ConnError} (message : M) (r : Reconnection) (works : Bool)
        (r' : Reconnection) (works' : Bool)
        → write_message message r works r' works' c ≡ some (c', e)
        → Step c c'
    closes : (works : Bool) → Step c (close_conn works c).0
    changes : (message : M) → Step c (set_dial_message message c)

  pub data Reach (c : Conn M) : Conn M → Type 0 where
    here : Reach c c
    next : {d e : Conn M} → Reach c d → Step d e → Reach c e

  Step-IsSound : {c d : Conn M} → Step c d → IsSound c → IsSound d
  Step-IsSound {c} (dials url r message e) h = subst Safe e (dial-Safe url r message c h)
  Step-IsSound {c} (writes message r works r' works' e) h =
      subst Safe e (write_message-Safe message r works r' works' c h)
  Step-IsSound {c} (closes works) h = close_conn-IsSound works c h
  Step-IsSound {c} (changes message) h = set_dial_message-IsSound message c h

  Reach-IsSound : {c d : Conn M} → IsSound c → Reach c d → IsSound d
  Reach-IsSound h here = h
  Reach-IsSound h (next r s) = Step-IsSound s (Reach-IsSound h r)

  -- Whatever the network does and whatever is called in whatever order, the first message that is
  -- accepted on each websocket is the one that `connect` sends, and the next `WriteMessage` does not
  -- meet a nil websocket.
  pub Reach-IsGreeted :
      (nil_message : M) {c : Conn M}
      → Reach (new_conn nil_message) c
      → IsGreeted c.log
        × ((message : M) (r : Reconnection) (works : Bool) (r' : Reconnection) (works' : Bool)
            → (c' : Conn M) × (e : Option ConnError) × (write_message message r works r' works' c
                ≡ some (c', e)))
  Reach-IsGreeted nil_message {c} reached =
      let sound = Reach-IsSound (new_conn-IsSound nil_message) reached in
      (
        sound.greeted,
        λ message r works r' works'.
            Safe-some (write_message message r works r' works' c)
              (write_message-Safe message r works r' works' c sound),
      )
