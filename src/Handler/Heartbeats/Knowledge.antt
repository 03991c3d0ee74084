-- ===== src/Handler/Heartbeats/Knowledge.antt =====
-- What the service knows of an instance, and what one accepted message adds.
use locate.Prelude.{
  String, ◌≡◌, refl, ap, ◌⊎◌, inl, inr, Bool, true, false, Option, none, some, List, [], ◌∷◌,
}
use locate.Prelude.Maps.{Map, lookup, insert}
use locate.Api.{Registration, Health, HeartbeatMessage}
use locate.Tracker.{
  StoreClient, Tracker, TrackerError, put_failed, Field, registration, health, with_registration,
  register_locally, register_after, register_instance, update_health_locally, update_health_after,
  update_health,
}
use locate.Memorystore.{PutOptions}
use locate.Tracker.Invariant.{IsKeyed}
use locate.Handler.Heartbeats.{Session, Round, Reason, register_error, health_error}

-- A registration and a health, each the last one that is known.
abbrev pub Known : Type 0
Known = Option Registration × Option Health

-- A message tells one of the two, the registration first.
abbrev pub learn_from : Known → Option Registration → Option Health → Known
learn_from (r, h) (some r') h' = (some r', h)
learn_from (r, h) none (some h') = (r, some h')
learn_from (r, h) none none = (r, h)

abbrev pub learn : Known → HeartbeatMessage → Known
learn known m = learn_from known m.registration m.health

abbrev pub learn_all : Known → List HeartbeatMessage → Known
learn_all known [] = known
learn_all known (m ∷ ms) = learn_all (learn known m) ms

abbrev pub known_of : Option HeartbeatMessage → Known
known_of none = (none, none)
known_of (some v) = (v.registration, v.health)

pub with_registration-known :
    (r : Registration) (o : Option HeartbeatMessage)
    → known_of (some (with_registration r o)) ≡ (some r, (known_of o).1)
with_registration-known r none = refl
with_registration-known r (some v) = refl

-- A registration under the host name, or a message without one.
abbrev pub NamesHost : String → Option Registration → Type 0
NamesHost hostname (some r) = r.hostname ≡ hostname
NamesHost hostname none = Unit

abbrev pub IsFrom : String → HeartbeatMessage → Type 0
IsFrom hostname m = NamesHost hostname m.registration

pub pair_congr :
    {A B : Type 0} {a a' : A} {b b' : B} → a ≡ a' → b ≡ b' → ◌≡◌ {A = A × B} (a, b) (a', b')
pair_congr p q = rw (p, q) refl

module _ {C : StoreClient} (hostname : String) where
  -- The session is that of the host name, and its entry has what is known.
  pub record IsServing (known : Known) (s : Session C) : Type 0 where
    pub named : s.hostname ≡ hostname
    pub keyed : IsKeyed s.tracker.instances
    pub entry :
        (v : HeartbeatMessage) × (lookup hostname s.tracker.instances ≡ some v)
        × ((v.registration, v.health) ≡ known)

module _ (C : StoreClient) where
  -- Some write to Memorystore failed.
  abbrev pub HasRefused : Type 0
  HasRefused =
      (k : String) × (v : Field) × (o : PutOptions) × (st : C.Store) × ((C.put k v o st).1 ≡ false)

  -- The loop ended because a write to Memorystore failed.
  abbrev pub IsUnwritten : Reason → Type 0
  IsUnwritten why =
      ((why ≡ register_error put_failed) ⊎ (why ≡ health_error put_failed)) × HasRefused

  -- The loop goes on, and the session serves what is known, or a write to Memorystore failed.
  abbrev pub IsKnownTo : String → Known → Round C → Type 0
  IsKnownTo hostname known p =
      ((s : Session C) × (p ≡ (s, none)) × IsServing hostname known s)
      ⊎ ((s : Session C) × (why : Reason) × (p ≡ (s, some why)) × IsUnwritten why)

  -- An operation with these new instances, or a write that failed.
  abbrev pub IsWritten : Map HeartbeatMessage → Tracker C × Option TrackerError → Type 0
  IsWritten instances p =
      ((t' : Tracker C) × (p ≡ (t', none)) × (t'.instances ≡ instances))
      ⊎ ((t' : Tracker C) × (p ≡ (t', some put_failed)) × HasRefused)

  pub register_instance-IsWritten :
      (r : Registration) (t : Tracker C)
      → IsWritten
          (insert r.hostname (with_registration r (lookup r.hostname t.instances)) t.instances)
          (register_instance C r t)
  unfolding register_instance register_after register_locally
  register_instance-IsWritten r t = go (C.put _ _ _ _) refl
    where
      options : PutOptions
      options = record { field_must_exist = ""; with_expire = true }

      go :
          (p : C.Store × Bool)
          → C.put r.hostname (registration r) options t.store ≡ p
          → IsWritten
              (insert r.hostname (with_registration r (lookup r.hostname t.instances)) t.instances)
              (register_after C r t p)
      go (store, true) e = inl (_, refl, refl)
      go (store, false) e =
          inr (_, refl, (r.hostname, registration r, options, t.store, ap (λ q. q.1) e))

  pub update_health-IsWritten :
      (hostname : String) (hm : Health) (t : Tracker C) (v : HeartbeatMessage)
      → lookup hostname t.instances ≡ some v
      → IsWritten
          (insert hostname (record v { health = some hm }) t.instances)
          (update_health C hostname hm t)
  unfolding update_health update_health_after update_health_locally
  update_health-IsWritten hostname hm t v known = go (C.put _ _ _ _) refl
    where
      options : PutOptions
      options = record { field_must_exist = "Registration"; with_expire = true }

      go :
          (p : C.Store × Bool)
          → C.put hostname (health hm) options t.store ≡ p
          → IsWritten
              (insert hostname (record v { health = some hm }) t.instances)
              (update_health_after C hostname hm t p)
      go (store, true) e = rw known (inl (_, refl, refl))
      go (store, false) e = inr (_, refl, (hostname, health hm, options, t.store, ap (λ q. q.1) e))
