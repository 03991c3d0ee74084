-- ===== src/Handler/Signals.antt =====
-- handler/prometheus.go: health signals from Prometheus queries, handed to the tracker.
pub mod Bystanders
pub mod Maintenance
use Prim.Native.String.{◌++◌}
use locate.Prelude.{
  ℕ, String, ◌≡◌, refl, Bool, true, false, not, Option, none, some, List, [], ◌∷◌, arith, ◌==◌,
  ◌!=◌, eq_iff, if◌then◌else◌, Result, ok, err,
}
use locate.Prelude.Maps.{Map, lookup, insert, lookup-insert, lookup-nil}
use locate.Float.{Float64, is_zero}
use locate.Host.{HostPackage}
use locate.Tracker.{StoreClient, Tracker, TrackerError, update_prometheus}

-- `model.Sample`, with its labels
pub record Sample : Type 0 where
  pub metric : Map String
  pub value : Float64

-- What a query returns: an error, a vector, or a value of another type.
pub data Answer : Type 0 where
  query_failed : Answer
  vector : List Sample → Answer
  other_value : Answer

pub data SignalError : Type 0 where
  query_error could_not_cast tracker_error unparsable_host : SignalError

-- `v != 0` and `v == 0`
unfoldable pub e2e_function : Float64 → Bool
e2e_function v = not (is_zero v)

unfoldable pub gmx_function : Float64 → Bool
gmx_function v = is_zero v

abbrev or_empty : Option String → String
or_empty none = ""
or_empty (some s) = s

-- `elem.Metric[labelName]`, "" where the label is missing
unfoldable pub label_of : String → Sample → String
label_of label_name s = or_empty (lookup label_name s.metric)

-- `getMetrics`, from the metrics found so far
unfoldable pub get_metrics_from : String → (Float64 → Bool) → Map Bool → List Sample → Map Bool
unfolding label_of
get_metrics_from label_name f metrics [] = metrics
get_metrics_from label_name f metrics (elem ∷ rest) =
    get_metrics_from label_name f (insert (label_of label_name elem) (f elem.value) metrics) rest

unfoldable pub get_metrics : List Sample → String → (Float64 → Bool) → Map Bool
unfolding get_metrics_from
get_metrics samples label_name f = get_metrics_from label_name f [] samples

unfoldable pub format_query : String → String → String
format_query query filter = if filter != "" then query ++ "{" ++ filter ++ "}" else query

unfoldable pub read_answer : Answer → String → (Float64 → Bool) → Result SignalError (Map Bool)
unfolding get_metrics
read_answer query_failed label_name f = err query_error
read_answer other_value label_name f = err could_not_cast
read_answer (vector samples) label_name f = ok (get_metrics samples label_name f)

-- `ask` is the Prometheus client's answer to each query.
unfoldable pub query :
    (String → Answer) → String → String → String → (Float64 → Bool) → Result SignalError (Map Bool)
unfolding read_answer format_query
query ask name filter label_name f = read_answer (ask (format_query name filter)) label_name f

abbrev pub finish :
    {C : StoreClient} → Tracker C × Option TrackerError → Tracker C × Option SignalError
finish (t, none) = (t, none)
finish (t, some e) = (t, some tracker_error)

module _ (C : StoreClient) (H : HostPackage) (order : List String → List String)
    (ask : String → Answer) where
  unfoldable pub after_machines :
      Map Bool → Result SignalError (Map Bool) → Tracker C → Tracker C × Option SignalError
  after_machines hostnames (err e) t = (t, some e)
  after_machines hostnames (ok machines) t =
      finish (update_prometheus C H hostnames machines order t)

  unfoldable pub after_hostnames :
      Result SignalError (Map Bool) → String → Tracker C → Tracker C × Option SignalError
  unfolding after_machines
  after_hostnames (err e) filter t = (t, some e)
  after_hostnames (ok hostnames) filter t =
      after_machines hostnames (query ask "gmx_machine_maintenance" filter "machine" gmx_function) t

  -- the method `updatePrometheus`
  unfoldable pub update_signals : String → Tracker C → Tracker C × Option SignalError
  unfolding after_hostnames
  update_signals filter t =
      after_hostnames (query ask "script_success" filter "fqdn" e2e_function) filter t

  -- `UpdatePrometheusForMachine`; `quote` is the verb %q of `fmt.Sprintf`
  unfoldable pub update_for_machine :
      (String → String) → String → Tracker C → Tracker C × Option SignalError
  unfolding update_signals
  update_for_machine quote hostname t = elim (H.parse hostname) [
    | none ↦ (t, some unparsable_host)
    | some name ↦ update_signals ("machine=" ++ quote (H.string name)) t
  ]

  -- The handler `Prometheus`: the HTTP status of its response.
  unfoldable pub prometheus_handler : Tracker C → Tracker C × ℕ
  unfolding update_signals
  prometheus_handler t =
      let (t', e) = update_signals "" t in (t', elim e [ none ↦ 200 | some _ ↦ 500 ])
