-- ===== src/Handler/Signals/Bystanders.antt =====
-- What `UpdatePrometheusForMachine` leaves alone.
use Prim.Native.String.{◌++◌}
use locate.Prelude.{
  String, ◌≡◌, refl, ap, ◌∙◌, inl, inr, Bool, Option, none, some, List, Result, ok, err,
}
use locate.Prelude.Maps.{Map, lookup}
use locate.Api.{Prometheus, HeartbeatMessage}
use locate.Host.{HostPackage}
use locate.Tracker.{StoreClient, Tracker, TrackerError, message_for, update_prometheus}
use locate.Tracker.Invariant.{IsKeyed}
use locate.Tracker.Refresh.{
  with_signal, refreshed, OneOf, update_prometheus-IsKeyed, update_prometheus-refreshed,
}
use locate.Handler.Signals.{
  unparsable_host, Answer, SignalError, finish, after_machines, after_hostnames, update_signals,
  update_for_machine,
}

-- The entry keeps its registration and its health.
abbrev pub IsKept : HeartbeatMessage → Option HeartbeatMessage → Type 0
IsKept v o =
    (v' : HeartbeatMessage) × (o ≡ some v')
    × (v'.registration ≡ v.registration)
    × (v'.health ≡ v.health)

module _ {C : StoreClient} where
  pub record Keeps (t t' : Tracker C) : Type 0 where
    pub keyed : IsKeyed t'.instances
    pub kept :
        (j : String) (v : HeartbeatMessage)
        → lookup j t.instances ≡ some v
        → IsKept v (lookup j t'.instances)

  same-Keeps : (t : Tracker C) → IsKeyed t.instances → Keeps t t
  same-Keeps t keyed = record { keyed = keyed; kept = λ j v e. (v, e, refl, refl) }

  module _ (H : HostPackage) (order : List String → List String) where
    update_prometheus-Keeps :
        (hostnames machines : Map Bool) (t : Tracker C)
        → IsKeyed t.instances
        → Keeps t (update_prometheus C H hostnames machines order t).0
    unfolding refreshed
    update_prometheus-Keeps hostnames machines t keyed = record {
      keyed = update_prometheus-IsKeyed C H hostnames machines order t keyed;
      kept =
          λ j v e. go j v e (update_prometheus-refreshed C H hostnames machines order t keyed j).0;
    }
      where
        with_message : (v : HeartbeatMessage) → IsKept v (refreshed C H hostnames machines (some v))
        with_message v = kept (message_for C H hostnames machines (some v))
          where
            kept :
                (o : Option Prometheus) → IsKept v (some (with_signal C H hostnames machines v o))
            kept none = (v, refl, refl, refl)
            kept (some pm) = (record v { prometheus = some pm }, refl, refl, refl)

        go :
            (j : String) (v : HeartbeatMessage)
            → lookup j t.instances ≡ some v
            → OneOf C H hostnames machines
                (lookup j t.instances)
                (lookup j (update_prometheus C H hostnames machines order t).0.instances)
            → IsKept v (lookup j (update_prometheus C H hostnames machines order t).0.instances)
        go j v e (inl same) = (v, same ∙ e, refl, refl)
        go j v e (inr changed) =
            let (v', e', kept, kept') = with_message v in
            (v', changed ∙ (ap (refreshed C H hostnames machines) e ∙ e'), kept, kept')

    module _ (ask : String → Answer) (t : Tracker C) (keyed : IsKeyed t.instances) where
      after_machines-Keeps :
          (hostnames : Map Bool) (o : Result SignalError (Map Bool))
          → Keeps t (after_machines C H order ask hostnames o t).0
      unfolding after_machines
      after_machines-Keeps hostnames (err e) = same-Keeps t keyed
      after_machines-Keeps hostnames (ok machines) =
          go (update_prometheus C H hostnames machines order t)
            (update_prometheus-Keeps hostnames machines t keyed)
        where
          go : (p : Tracker C × Option TrackerError) → Keeps t p.0 → Keeps t (finish p).0
          go (t', none) k = k
          go (t', some e) k = k

      after_hostnames-Keeps :
          (filter : String) (o : Result SignalError (Map Bool))
          → Keeps t (after_hostnames C H order ask o filter t).0
      unfolding after_hostnames
      after_hostnames-Keeps filter (err e) = same-Keeps t keyed
      after_hostnames-Keeps filter (ok hostnames) = after_machines-Keeps hostnames _

      -- No instance loses its registration or its health, whatever Prometheus answers.
      pub update_for_machine-Keeps :
          (quote : String → String) (hostname : String)
          → Keeps t (update_for_machine C H order ask quote hostname t).0
      unfolding update_for_machine update_signals
      update_for_machine-Keeps quote hostname = go (H.parse hostname)
        where
          go :
              (o : Option H.Name)
              → Keeps t
                  (elim o as (λ _. Tracker C × Option SignalError) [
                    | none ↦ (t, some unparsable_host)
                    | some name ↦
                        update_signals C H order ask ("machine=" ++ quote (H.string name)) t
                  ]).0
          go none = same-Keeps t keyed
          go (some name) = after_hostnames-Keeps _ _
