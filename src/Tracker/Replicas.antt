-- ===== src/Tracker/Replicas.antt =====
-- Replicas of the service share what they know through Memorystore.
use locate.Prelude.{
  ℕ, ◌≤◌, String, ◌≡◌, ==_refl, refl, ap, ◌∙◌, ◌⊎◌, inl, inr, Bool, true, false, Option, none, some,
  List, Result, arith,
}
use locate.Prelude.Maps.{Map, lookup, contains}
use locate.Api.{Registration, HeartbeatMessage}
use locate.Memorystore.{Redis, Network, PutError, PutOptions}
use locate.Memorystore.Scan.{GetAllError, get_all, Pages, AllOrNothing, get_all-AllOrNothing}
use locate.Tracker.{
  Field, registration, StoreClient, Tracker, register_instance, register_after, register_locally,
  import_values, import_memorystore,
}
use locate.Tracker.Stored.{
  Codecs, Redigo, get, put_field, Remote, put_remote, redis_client, succeeded, later, finished,
}
use locate.Tracker.RoundTrip.{with_field, get-put_field}

module _ (R : Redis) (J : Codecs) (P : Redigo R J) where
  open R use {Db, hget}

  module _ (scan : Db → ℕ → Result GetAllError (ℕ × List String)) (fuel : ℕ) where
    abbrev pub Client : StoreClient
    Client = redis_client R J P scan fuel

    -- a registration that was written
    register_instance-put :
        (rm : Registration) (t t' : Tracker Client)
        → register_instance Client rm t ≡ (t', none)
        → Client.put rm.hostname
            (registration rm)
            (record { field_must_exist = ""; with_expire = true })
            t.store
          ≡ (t'.store, true)
    unfolding register_instance register_after register_locally
    register_instance-put rm t t' e = go (Client.put _ _ _ _) e
      where
        go :
            (p : Client.Store × Bool)
            → register_after Client rm t p ≡ (t', none)
            → p ≡ (t'.store, true)
        go (store, false) h = cc
        go (store, true) h = ap (λ o. (o.0.store, true)) h

    put_remote-put_field :
        (key : String) (value : Field) (opts : PutOptions) (s s' : Remote R J P)
        → Client.put key value opts s ≡ (s', true)
        → (n : Network) × (n' : Network) × (put_field R J P n n' key value opts s.db
            ≡ (s'.db, none))
    unfolding put_remote
    put_remote-put_field key value opts s s' e =
        (_, _, go (later R J P s.networks) (put_field R J P _ _ key value opts s.db) e)
      where
        go :
            (rest : List (Network × Network)) (q : Db × Option PutError)
            → succeeded R J P rest q ≡ (s', true)
            → q ≡ (s'.db, none)
        go rest (db, none) h = ap (λ o. (o.0.db, none)) h
        go rest (db, some x) h = cc

    -- What the next import of another replica gives: the entry at the host name, or nothing new, where some
    -- entry on the way could not be read.
    abbrev pub IsShared :
        List String → String → HeartbeatMessage → ℕ → Tracker Client → Tracker Client → Type 0
    IsShared keys hostname v now u u' =
        ((lookup hostname u'.instances ≡ some v) × (u'.last_update ≡ now))
        ⊎ ((k : String) × (contains keys k ≡ true) × (get R J P u.store.db k ≡ none) × (u' ≡ u))

    import-IsShared :
        (u : Tracker Client) (v : HeartbeatMessage) (hostname : String) (now n : ℕ)
        (keys : List String)
        → get R J P u.store.db hostname ≡ some v
        → Pages (scan u.store.db) (get R J P u.store.db) 0 n keys
        → n ≤ fuel
        → contains keys hostname ≡ true
        → IsShared keys hostname v now u (import_memorystore Client now u)
    unfolding import_memorystore import_values
    import-IsShared u v hostname now n keys stored pages enough seen =
        go (get_all (scan u.store.db) (get R J P u.store.db) fuel)
          (get_all-AllOrNothing (scan u.store.db) (get R J P u.store.db) fuel n keys pages enough)
      where
        go :
            (o : Option (Result GetAllError (Map HeartbeatMessage)))
            → AllOrNothing (scan u.store.db) (get R J P u.store.db) keys o
            → IsShared keys hostname v now u (import_values Client now u (finished o))
        go o (inl (found, e, reads, _)) = rw e (inl (reads hostname ∙ rw seen stored, refl))
        go o (inr (k, e, c, f)) = rw e (inr (k, c, f, refl))

    -- Another replica imports what a replica registered: after a successful `RegisterInstance` on an entry
    -- that is readable or missing, the next `importMemorystore` of any tracker over the same database, which
    -- answers, gives it the registration, beside the health and the Prometheus data that were stored
    -- before, or leaves it as it was, where an entry that the scan passes cannot be read. The scan comes
    -- back to 0 within the fuel, and passes the host name, as SCAN does for a key that is there all the
    -- time.
    pub register_instance-IsShared :
        (rm : Registration) (t t' u : Tracker Client) (m : HeartbeatMessage) (now n : ℕ)
        (keys : List String)
        → register_instance Client rm t ≡ (t', none)
        → get R J P t.store.db rm.hostname ≡ some m
        → u.store.db ≡ t'.store.db
        → Pages (scan u.store.db) (get R J P u.store.db) 0 n keys
        → n ≤ fuel
        → contains keys rm.hostname ≡ true
        → IsShared keys rm.hostname
            (record m { registration = some rm })
            now
            u
            (import_memorystore Client now u)
    unfolding with_field
    register_instance-IsShared rm t t' u m now n keys e old same pages enough seen =
        let (network, network', e') =
          put_remote-put_field rm.hostname (registration rm) _ t.store t'.store
            (register_instance-put rm t t' e) in
        let here =
          get-put_field R J P network network' rm.hostname (registration rm) _ t.store.db
            t'.store.db m e' old rm.hostname in
        let stored : get R J P t'.store.db rm.hostname
            ≡ some (record m { registration = some rm }) =
          ground (arith, here, ==_refl rm.hostname) in
        import-IsShared u _ rm.hostname now n keys
          (ap (λ db. get R J P db rm.hostname) same ∙ stored) pages enough seen
