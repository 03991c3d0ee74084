-- ===== src/Connection/Greeting.antt =====
-- Every websocket carries a greeting before anything else.
use locate.Prelude.{
  ℕ, ◌≡◌, refl, Bool, true, false, not, ◌&&◌, ◌||◌, Option, none, some, List, [], ◌∷◌, arith,
  if◌then◌else◌, if_either, nat_eq,
}
use locate.Connection.{
  Attempt, established, refused, ConnError, close_error, write_error, Delivery, Conn, Reconnection,
  Dialing, given_up, ended, is_final, establish, attempt, write_on, write, greet, connect, shut,
  reconnect_after, close_and_reconnect,
}

abbrev pub opens : Option ℕ → Bool
opens none = false
opens (some id) = true

module _ {M : Type 0} where
  unfoldable pub has_greeting : ℕ → List (Delivery M) → Bool
  has_greeting id [] = false
  has_greeting id (d ∷ ds) = (nat_eq d.socket id && d.greeting) || has_greeting id ds

  -- Each accepted message is a greeting, or a greeting was accepted before it on its websocket.
  unfoldable pub IsGreeted : List (Delivery M) → Type 0
  IsGreeted [] = Unit
  IsGreeted (d ∷ ds) = ((d.greeting || has_greeting d.socket ds) ≡ true) × IsGreeted ds

  abbrev pub greets : Option ℕ → List (Delivery M) → Bool
  greets none ds = false
  greets (some id) ds = has_greeting id ds

  -- A connected websocket exists, and has been greeted, or its first write has failed.
  pub record IsSound (c : Conn M) : Type 0 where
    pub linked : c.is_connected ≡ true → opens c.ws ≡ true
    pub greeted : IsGreeted c.log
    pub current : c.is_connected ≡ true → (c.broken || greets c.ws c.log) ≡ true

  -- An operation does not panic, leaves the connection sound, and connected where it returns no error.
  abbrev pub IsDone : Option (Conn M × Option ConnError) → Type 0
  IsDone none = ⊥
  IsDone (some (c, some e)) = IsSound c
  IsDone (some (c, none)) = IsSound c × (c.is_connected ≡ true)

  -- a greeting on a websocket that may not have been greeted yet
  write-greeting :
      (body : M) (works : Bool) (c : Conn M)
      → c.is_connected ≡ true
      → opens c.ws ≡ true
      → IsGreeted c.log
      → IsDone (write true body works c)
  unfolding write write_on has_greeting IsGreeted
  write-greeting body works c connected is_open greeted = on c.ws refl is_open
    where
      on : (ws : Option ℕ) → c.ws ≡ ws → opens ws ≡ true → IsDone (write_on ws true body works c)
      on none e o = cc
      on (some id) e o = go (works && not c.broken)
        where
          greeting : Delivery M
          greeting = record { socket = id; greeting = true; body = body }

          heard : greets c.ws (greeting ∷ c.log) ≡ true
          heard = rw e (ground arith)

          go :
              (b : Bool)
              → IsDone (
                  if b
                  then some (record c { log = greeting ∷ c.log }, none)
                  else some (record c { broken = true }, some write_error))
          go true = (
            record {
              linked = λ _. is_open;
              greeted = (refl, greeted);
              current = λ _. ground (arith, heard);
            },
            connected,
          )
          go false = record { linked = λ _. is_open; greeted = greeted; current = λ _. refl }

  pub write-message :
      (body : M) (works : Bool) (c : Conn M)
      → c.is_connected ≡ true
      → IsSound c
      → IsDone (write false body works c)
  unfolding write write_on has_greeting IsGreeted
  write-message body works c connected sound = on c.ws refl (sound.linked connected)
    where
      on : (ws : Option ℕ) → c.ws ≡ ws → opens ws ≡ true → IsDone (write_on ws false body works c)
      on none e o = cc
      on (some id) e o = go (works && not c.broken) refl
        where
          later : Delivery M
          later = record { socket = id; greeting = false; body = body }

          go :
              (b : Bool)
              → works && not c.broken ≡ b
              → IsDone (
                  if b
                  then some (record c { log = later ∷ c.log }, none)
                  else some (record c { broken = true }, some write_error))
          go true working =
              let heard : greets c.ws c.log ≡ true =
                ground (arith, working, sound.current connected) in
              let heard' : has_greeting id c.log ≡ true = rw e at heard in
              (
                record {
                  linked = sound.linked;
                  greeted = (heard', sound.greeted);
                  current = λ _. rw e (ground (arith, heard'));
                },
                connected,
              )
          go false working = record {
            linked = sound.linked;
            greeted = sound.greeted;
            current = λ _. refl;
          }

  -- before the greeting: connected after a success, and untouched or connected otherwise
  abbrev Reached : Dialing M → Type 0
  Reached (given_up c) = IsSound c
  Reached (ended c e) =
      (c.is_connected ≡ true → opens c.ws ≡ true)
      × IsGreeted c.log
      × ((e ≡ none) → c.is_connected ≡ true)
      × (c.is_connected ≡ false → IsSound c)

  attempt-Reached :
      (more : List Attempt) (first : Attempt) (c : Conn M)
      → IsSound c
      → Reached (attempt more first c)
  unfolding attempt establish
  attempt-Reached more established c sound = ((λ _. refl), sound.greeted, (λ _. refl), λ h. cc)
  attempt-Reached [] (refused status) c sound =
      if_either Reached (is_final status) sound (sound.linked, sound.greeted, (λ h. cc), λ _. sound)
  attempt-Reached (a ∷ more) (refused status) c sound =
      if_either Reached (is_final status) sound (attempt-Reached more a c sound)

  pub connect-IsDone : (r : Reconnection) (c : Conn M) → IsSound c → IsDone (connect r c)
  unfolding connect greet
  connect-IsDone r c sound = go (attempt r.more r.first c) (attempt-Reached r.more r.first c sound)
    where
      done :
          (c' : Conn M) (e : Option ConnError)
          → (e ≡ none → c'.is_connected ≡ true)
          → c'.is_connected ≡ false
          → IsSound c'
          → IsDone (some (c', e))
      done c' none up down sound' = let up' = up refl in cc
      done c' (some x) up down sound' = sound'

      go : (p : Dialing M) → Reached p → IsDone (greet r.writes p)
      go (given_up c') sound' = sound'
      go (ended c' e) (linked, greeted, up, rest) = on c'.is_connected refl
        where
          on :
              (b : Bool)
              → c'.is_connected ≡ b
              → IsDone (if b then write true c'.dial_message r.writes c' else some (c', e))
          on true h = write-greeting c'.dial_message r.writes c' h (linked h) greeted
          on false h = done c' e up h (rest h)

  abbrev LeavesSound : Conn M × Option ConnError → Type 0
  LeavesSound p = IsSound p.0

  pub shut-IsSound : (works : Bool) (c : Conn M) → IsSound c → IsSound (shut works c).0
  unfolding shut
  shut-IsSound works c sound = go c.is_connected
    where
      error : Option ConnError
      error = elim c.ws [ none ↦ none | some id ↦ if works then none else some close_error ]

      go :
          (b : Bool)
          → LeavesSound (if b then (record c { is_connected = false }, error) else (c, none))
      go true = record { linked = λ h. cc; greeted = sound.greeted; current = λ h. cc }
      go false = sound

  pub close_and_reconnect-IsDone :
      (r : Reconnection) (c : Conn M) → IsSound c → IsDone (close_and_reconnect r c)
  unfolding close_and_reconnect reconnect_after
  close_and_reconnect-IsDone r c sound = go (shut r.closes c) (shut-IsSound r.closes c sound)
    where
      go : (p : Conn M × Option ConnError) → IsSound p.0 → IsDone (reconnect_after r p)
      go (c', some e) s = s
      go (c', none) s = connect-IsDone r c' s
