-- ===== src/Handler/Heartbeats/Deliveries.antt =====
-- What the service knows of an instance after the messages of one of its websockets.
use mathlib.Core.Path.{subst}
use locate.Prelude.{
  String, ◌≡◌, ◌≢◌, refl, sym, ap, ◌∙◌, ◌⊎◌, inl, inr, Option, none, some, List, [], ◌∷◌, map, All,
  arith, eq_iff,
}
use locate.Prelude.Maps.{lookup, insert, lookup-insert}
use locate.Api.{Registration, Health, HeartbeatMessage}
use locate.Tracker.{StoreClient, Tracker, with_registration, register_instance, update_health}
use locate.Tracker.Invariant.{IsKeyed, register_instance-IsKeyed, update_health-IsKeyed}
use locate.Handler.Signals.Bystanders.{update_for_machine-Keeps}
use locate.Handler.Heartbeats.{
  message, Session, Surroundings, Round, note_registration, after_register, after_health, dispatch,
  handle_event, handle_heartbeats, new_session,
}
use locate.Handler.Heartbeats.Knowledge.{
  Known, learn_from, learn, learn_all, known_of, with_registration-known, NamesHost, IsFrom,
  pair_congr, IsServing, IsUnwritten, IsKnownTo, IsWritten, register_instance-IsWritten,
  update_health-IsWritten,
}

module _ {C : StoreClient} where
  module _ (E : Surroundings) (hostname : String) (given : hostname ≢ "") where
    Continues : Known → Round C → Type 0
    Continues known (s, some why) = IsUnwritten C why
    Continues known (s, none) = IsServing hostname known s

    note_registration-named :
        (r : Registration) (s : Session C)
        → (s.hostname ≡ "") ⊎ (s.hostname ≡ hostname)
        → r.hostname ≡ hostname
        → (note_registration r s).hostname ≡ hostname
    unfolding note_registration
    note_registration-named r s (inl e) own = ground (arith, eq_iff s.hostname "", e, own)
    note_registration-named r s (inr e) own = ground (arith, eq_iff s.hostname "", e, own)

    -- what follows a registration that was written
    registered-IsServing :
        (r : Registration) (s : Session C) (t : Tracker C) (v : HeartbeatMessage)
        → (s.hostname ≡ "") ⊎ (s.hostname ≡ hostname)
        → r.hostname ≡ hostname
        → IsKeyed t.instances
        → lookup hostname t.instances ≡ some v
        → Continues (v.registration, v.health) (after_register E r s (t, none))
    unfolding after_register Continues
    registered-IsServing r s t v name own keyed e =
        let keeps = update_for_machine-Keeps E.host E.order E.ask t keyed E.quote r.hostname in
        let (v', e', same, same') = keeps.kept hostname v e in
        record {
          named = note_registration-named r (record s { tracker = t }) name own;
          keyed = keeps.keyed;
          entry = (v', e', pair_congr same same');
        }

    register-Continues :
        (r : Registration) (s : Session C)
        → (s.hostname ≡ "") ⊎ (s.hostname ≡ hostname)
        → r.hostname ≡ hostname
        → IsKeyed s.tracker.instances
        → Continues
            (some r, (known_of (lookup hostname s.tracker.instances)).1)
            (after_register E r s (register_instance C r s.tracker))
    unfolding after_register Continues
    register-Continues r s name own keyed = go (register_instance-IsWritten C r s.tracker)
      where
        entry : HeartbeatMessage
        entry = with_registration r (lookup r.hostname s.tracker.instances)

        go :
            IsWritten C
              (insert r.hostname entry s.tracker.instances)
              (register_instance C r s.tracker)
            → Continues
                (some r, (known_of (lookup hostname s.tracker.instances)).1)
                (after_register E r s (register_instance C r s.tracker))
        go (inl (t', e, ins)) =
            let found : lookup hostname t'.instances
                ≡ some (with_registration r (lookup hostname s.tracker.instances)) =
              ground (
                arith,
                ins,
                own,
                eq_iff r.hostname hostname,
                lookup-insert r.hostname hostname entry s.tracker.instances,
              ) in
            let keyed' : IsKeyed t'.instances =
              subst (λ p. IsKeyed p.0.instances) e
                (register_instance-IsKeyed C r s.tracker keyed) in
            subst (λ p. Continues p.0 (after_register E r s p.1))
              (pair_congr (with_registration-known r (lookup hostname s.tracker.instances)) (sym e))
              (registered-IsServing r s t' _ name own keyed' found)
        go (inr (t', e, refused)) = rw e (inl refl, refused)

    health-Continues :
        (h : Health) (s : Session C) (known : Known)
        → IsServing hostname known s
        → Continues (known.0, some h) (after_health s (update_health C s.hostname h s.tracker))
    unfolding after_health Continues
    health-Continues h s known serving = go (update_health-IsWritten C s.hostname h s.tracker v e')
      where
        v : HeartbeatMessage
        v = serving.entry.0

        e' : lookup s.hostname s.tracker.instances ≡ some v
        e' = ap (λ j. lookup j s.tracker.instances) serving.named ∙ serving.entry.1

        go :
            IsWritten C
              (insert s.hostname (record v { health = some h }) s.tracker.instances)
              (update_health C s.hostname h s.tracker)
            → Continues (known.0, some h) (after_health s (update_health C s.hostname h s.tracker))
        go (inl (t', u, ins)) =
            let found : lookup hostname t'.instances ≡ some (record v { health = some h }) =
              ground (
                arith,
                ins,
                serving.named,
                eq_iff s.hostname hostname,
                lookup-insert s.hostname hostname (record v { health = some h })
                    s.tracker.instances,
              ) in
            subst (λ p. Continues (known.0, some h) (after_health s p)) (sym u)
              (record {
                named = serving.named;
                keyed =
                    subst (λ p. IsKeyed p.0.instances) u
                      (update_health-IsKeyed C s.hostname h s.tracker serving.keyed);
                entry = (_, found, ap (λ p. (p.0, some h)) serving.entry.2);
              })
        go (inr (t', u, refused)) = rw u (inr refl, refused)

    dispatch-Continues :
        (ro : Option Registration) (ho : Option Health) (s : Session C) (known : Known)
        → NamesHost hostname ro
        → IsServing hostname known s
        → Continues (learn_from known ro ho) (dispatch E ro ho s)
    unfolding dispatch Continues
    dispatch-Continues (some r) ho s known from serving =
        let (v, e, k) = serving.entry in
        subst (λ h. Continues (some r, h) (after_register E r s (register_instance C r s.tracker)))
          (ap (λ o. (known_of o).1) e ∙ ap (λ p. p.1) k)
          (register-Continues r s (inr serving.named) from serving.keyed)
    dispatch-Continues none (some h) s known from serving = health-Continues h s known serving
    dispatch-Continues none none s known from serving = serving

    then-Continues :
        (ms : List HeartbeatMessage) (known known' : Known) (p : Round C)
        → Continues known p
        → ((s : Session C)
            → IsServing hostname known s
            → Continues known' (handle_heartbeats E (map message ms) s))
        → Continues known' (elim p.1 as (λ _. Round C) [
          | some why ↦ (p.0, some why)
          | none ↦ handle_heartbeats E (map message ms) p.0
        ])
    unfolding Continues
    then-Continues ms known known' (s, some why) c rest = c
    then-Continues ms known known' (s, none) c rest = rest s c

    handle_heartbeats-Continues :
        (ms : List HeartbeatMessage) (s : Session C) (known : Known)
        → All (IsFrom hostname) ms
        → IsServing hostname known s
        → Continues (learn_all known ms) (handle_heartbeats E (map message ms) s)
    unfolding handle_heartbeats handle_event Continues
    handle_heartbeats-Continues [] s known from serving = serving
    handle_heartbeats-Continues (m ∷ ms) s known (f, fs) serving =
        then-Continues ms (learn known m) (learn_all known (m ∷ ms))
          (dispatch E m.registration m.health s)
          (dispatch-Continues m.registration m.health s known f serving)
          (λ s' serving'. handle_heartbeats-Continues ms s' (learn known m) fs serving')

    Continues-IsKnownTo :
        (known : Known) (p : Round C) → Continues known p → IsKnownTo C hostname known p
    unfolding Continues
    Continues-IsKnownTo known (s, some why) h = inr (s, why, refl, h)
    Continues-IsKnownTo known (s, none) h = inl (s, refl, h)

    -- A connection whose first message registers an instance and whose later messages register it again
    -- or report its health is closed only where a write to Memorystore fails, and else the instance's entry
    -- has the registration and the health that were sent last, and the health that it had before where
    -- none was sent.
    pub handle_heartbeats-IsServing :
        (m : HeartbeatMessage) (ms : List HeartbeatMessage) (r : Registration) (t : Tracker C)
        → m.registration ≡ some r
        → r.hostname ≡ hostname
        → All (IsFrom hostname) ms
        → IsKeyed t.instances
        → IsKnownTo C hostname
            (learn_all (known_of (lookup hostname t.instances)) (m ∷ ms))
            (handle_heartbeats E (map message (m ∷ ms)) (new_session t))
    unfolding handle_heartbeats handle_event Continues new_session dispatch
    handle_heartbeats-IsServing m ms r t e own from keyed = Continues-IsKnownTo _ _ (
        then-Continues ms (learn known m) (learn_all known (m ∷ ms))
          (dispatch E m.registration m.health (new_session t)) first
          (λ s' serving. handle_heartbeats-Continues ms s' (learn known m) from serving))
      where
        known : Known
        known = known_of (lookup hostname t.instances)

        first : Continues (learn known m) (dispatch E m.registration m.health (new_session t))
        first =
            subst
              (λ o. Continues (learn_from known o m.health) (dispatch E o m.health (new_session t)))
              (sym e) (register-Continues r (new_session t) (inl refl) own keyed)
