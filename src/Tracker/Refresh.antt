-- ===== src/Tracker/Refresh.antt =====
-- `UpdatePrometheus`: which entries it changes, and how.
use mathlib.Core.Path.{subst}
use locate.Prelude.{
  String, ◌≡◌, refl, sym, ap, ◌∙◌, ◌⊎◌, inl, inr, Bool, true, false, not, ◌||◌, Option, none, some,
  List, [], ◌∷◌, arith, ◌==◌, eq_iff, Bool-cases,
}
use locate.Prelude.Maps.{Map, lookup, lookup-insert, keys, contains}
use locate.Api.{Registration, Prometheus, HeartbeatMessage}
use locate.Host.{HostPackage}
use locate.Tracker.{
  StoreClient, Tracker, prometheus_failed, update_message_after, update_prometheus_message,
  refresh_one, message_for, refresh, update_prometheus,
}
use locate.Tracker.Signals.{construct_prometheus_message}
use locate.Tracker.Invariant.{IsOwn, IsKeyed, insert-IsKeyed}

module _ (C : StoreClient) (H : HostPackage) (hostnames machines : Map Bool) where
  abbrev pub with_signal : HeartbeatMessage → Option Prometheus → HeartbeatMessage
  with_signal v none = v
  with_signal v (some pm) = record v { prometheus = some pm }

  -- The entry with the message for it in place of its last one, if there is a message.
  unfoldable pub refreshed : Option HeartbeatMessage → Option HeartbeatMessage
  refreshed none = none
  refreshed (some v) = some (with_signal v (message_for C H hostnames machines (some v)))

  refreshed_idem : (o : Option HeartbeatMessage) → refreshed (refreshed o) ≡ refreshed o
  unfolding refreshed
  refreshed_idem none = refl
  refreshed_idem (some v) = go (message_for C H hostnames machines (some v)) refl
    where
      go :
          (m : Option Prometheus)
          → message_for C H hostnames machines (some v) ≡ m
          → refreshed (some (with_signal v m)) ≡ some (with_signal v m)
      go none e = rw e
      go (some pm) e = unfold message_for construct_prometheus_message in rw e

  abbrev pub OneOf : Option HeartbeatMessage → Option HeartbeatMessage → Type 0
  OneOf before after = (after ≡ before) ⊎ (after ≡ refreshed before)

  OneOf-trans : (a b c : Option HeartbeatMessage) → OneOf a b → OneOf b c → OneOf a c
  OneOf-trans a b c (inl p) (inl q) = inl (q ∙ p)
  OneOf-trans a b c (inl p) (inr q) = inr (q ∙ ap refreshed p)
  OneOf-trans a b c (inr p) (inl q) = inr (q ∙ p)
  OneOf-trans a b c (inr p) (inr q) = inr (q ∙ ap refreshed p ∙ refreshed_idem a)

  refreshed-OneOf :
      (a b c : Option HeartbeatMessage) → OneOf a b → c ≡ refreshed b → c ≡ refreshed a
  refreshed-OneOf a b c (inl p) q = q ∙ ap refreshed p
  refreshed-OneOf a b c (inr p) q = q ∙ ap refreshed p ∙ refreshed_idem a

  OneOf-refreshed :
      (a b c : Option HeartbeatMessage) → b ≡ refreshed a → OneOf b c → c ≡ refreshed a
  OneOf-refreshed a b c p (inl q) = q ∙ p
  OneOf-refreshed a b c p (inr q) = q ∙ ap refreshed p ∙ refreshed_idem a

  -- What rounds do to a tracker: `here` is what is known of a key that they visit.
  record Rounds (t : Tracker C) (failed : Bool) (k : String) (s : Tracker C × Bool) : Type 0 where
    keyed : IsKeyed s.0.instances
    each : (j : String) → OneOf (lookup j t.instances) (lookup j s.0.instances)
    here : s.1 ≡ false → lookup k s.0.instances ≡ refreshed (lookup k t.instances)
    sticky : s.1 ≡ false → failed ≡ false

  put-Rounds :
      (t : Tracker C) (failed : Bool) (k : String) (v : HeartbeatMessage) (pm : Prometheus)
      (r : Registration)
      → IsKeyed t.instances
      → lookup k t.instances ≡ some v
      → message_for C H hostnames machines (some v) ≡ some pm
      → v.registration ≡ some r
      → r.hostname ≡ k
      → (p : C.Store × Bool)
      → let u = update_message_after C r.hostname v pm t p in
        Rounds t failed k (u.0, failed || not u.1)
  unfolding update_message_after refreshed
  put-Rounds t failed k v pm r keyed at m reg own (store, false) = record {
    keyed = keyed;
    each = λ j. inl refl;
    here = λ f. ground arith;
    sticky = λ f. ground arith;
  }
  put-Rounds t failed k v pm r keyed at m reg own (store, true) = record {
    keyed = insert-IsKeyed r.hostname _ t.instances (r, reg, refl) keyed;
    each = λ j. rw lookup-insert (elim (Bool-cases (r.hostname == j)) [
      | inl p ↦ rw p (
          inr (
            subst (λ i. some (record v { prometheus = some pm }) ≡ refreshed (lookup i t.instances))
              (sym own ∙ (eq_iff r.hostname j).0 p) updated))
      | inr p ↦ rw p (inl refl)
    ]);
    here = λ f. rw (lookup-insert, (eq_iff r.hostname k).1 own) updated;
    sticky = λ f. ground arith;
  }
    where
      updated : some (record v { prometheus = some pm }) ≡ refreshed (lookup k t.instances)
      updated = sym (ap refreshed at ∙ ap (λ x. some (with_signal v x)) m)

  same-Rounds :
      (t : Tracker C) (failed : Bool) (k : String)
      → IsKeyed t.instances
      → lookup k t.instances ≡ refreshed (lookup k t.instances)
      → Rounds t failed k (t, failed)
  same-Rounds t failed k keyed e = record {
    keyed = keyed;
    each = λ j. inl refl;
    here = λ f. e;
    sticky = λ f. f;
  }

  refresh_one-Rounds :
      (t : Tracker C) (failed : Bool) (k : String) (o : Option HeartbeatMessage)
      (m : Option Prometheus)
      → IsKeyed t.instances
      → lookup k t.instances ≡ o
      → message_for C H hostnames machines o ≡ m
      → IsOwn k o
      → Rounds t failed k (refresh_one C o m (t, failed))
  unfolding refresh_one refreshed update_prometheus_message
  refresh_one-Rounds t failed k none m keyed at e own = same-Rounds t failed k keyed (rw at)
  refresh_one-Rounds t failed k (some v) none keyed at e own =
      same-Rounds t failed k keyed (rw (at, e))
  refresh_one-Rounds t failed k (some v) (some pm) keyed at e (r, reg, same) =
      rw (reg, refresh_one) (put-Rounds t failed k v pm r keyed at e reg same _)

  -- All the rounds together.
  record Refreshed (t : Tracker C) (failed : Bool) (ks : List String) (s : Tracker C × Bool)
      : Type 0 where
    keyed : IsKeyed s.0.instances
    each : (j : String) → OneOf (lookup j t.instances) (lookup j s.0.instances)
    visited :
        (j : String)
        → s.1 ≡ false
        → contains ks j ≡ true
        → lookup j s.0.instances ≡ refreshed (lookup j t.instances)
    sticky : s.1 ≡ false → failed ≡ false

  refresh-Refreshed :
      (ks : List String) (t : Tracker C) (failed : Bool)
      → IsKeyed t.instances
      → Refreshed t failed ks (refresh C H hostnames machines ks (t, failed))
  unfolding refresh contains
  refresh-Refreshed [] t failed keyed = record {
    keyed = keyed;
    each = λ j. inl refl;
    visited = λ j f c. cc;
    sticky = λ f. f;
  }
  refresh-Refreshed (k ∷ ks) t failed keyed =
      let o = lookup k t.instances in
      let s = refresh_one C o (message_for C H hostnames machines o) (t, failed) in
      let first : Rounds t failed k s =
        refresh_one-Rounds t failed k o _ keyed refl refl (keyed.own k) in
      let rest = refresh-Refreshed ks s.0 s.1 first.keyed in
      record {
        keyed = rest.keyed;
        each = λ j. OneOf-trans _ _ _ (first.each j) (rest.each j);
        visited = λ j f c. elim (Bool-cases (k == j)) [
          | inl e ↦
              OneOf-refreshed _ _ _
                (subst (λ i. lookup i s.0.instances ≡ refreshed (lookup i t.instances))
                  ((eq_iff k j).0 e) (first.here (rest.sticky f)))
                (rest.each j)
          | inr e ↦ refreshed-OneOf _ _ _ (first.each j) (rest.visited j f (ground arith))
        ];
        sticky = λ f. first.sticky (rest.sticky f);
      }

  module _ (order : List String → List String) (t : Tracker C) (keyed : IsKeyed t.instances) where
    all_rounds :
        Refreshed t false
          (order (keys t.instances))
          (refresh C H hostnames machines (order (keys t.instances)) (t, false))
    all_rounds = refresh-Refreshed (order (keys t.instances)) t false keyed

    -- `UpdatePrometheus` leaves every instance registered under its own host name.
    pub update_prometheus-IsKeyed :
        IsKeyed (update_prometheus C H hostnames machines order t).0.instances
    unfolding update_prometheus
    update_prometheus-IsKeyed = all_rounds.keyed

    pub update_prometheus-refreshed :
        (j : String)
        → OneOf
            (lookup j t.instances)
            (lookup j (update_prometheus C H hostnames machines order t).0.instances)
          × (((update_prometheus C H hostnames machines order t).1 ≡ some prometheus_failed)
              ⊎ (contains (order (keys t.instances)) j ≡ false)
              ⊎ (lookup j (update_prometheus C H hostnames machines order t).0.instances
                  ≡ refreshed (lookup j t.instances)))
    unfolding update_prometheus
    update_prometheus-refreshed j = (all_rounds.each j, ground (arith, all_rounds.visited j))
