-- ===== src/Tracker/Metrics.antt =====
-- `updateMetrics`: the gauge of healthy instances by experiment.
use locate.Prelude.{
  ℕ, zero, suc, ◌+◌, String, ◌≡◌, refl, Bool, true, false, Option, none, some, List, [], ◌∷◌, arith,
  ◌==◌, eq_iff, nat_eq, if◌then◌else◌,
}
use locate.Prelude.Maps.{Map, lookup, insert, values, keys, contains, lookup-insert, lookup-nil}
use locate.Prelude.Keyed.{DistinctKeys, DistinctKeys-insert}
use locate.Api.{Registration, HeartbeatMessage}
use locate.Location.Valid.{is_healthy}

abbrev or_zero : Option ℕ → ℕ
or_zero none = 0
or_zero (some n) = n

-- `healthy[experiment]++`, for the registration of a healthy instance
unfoldable pub count_one : Bool → Option Registration → Map ℕ → Map ℕ
count_one false r healthy = healthy
count_one true none healthy = healthy
count_one true (some r) healthy =
    insert r.experiment (or_zero (lookup r.experiment healthy) + 1) healthy

-- the first loop
unfoldable pub count_healthy : Map ℕ → List HeartbeatMessage → Map ℕ
unfolding count_one
count_healthy healthy [] = healthy
count_healthy healthy (v ∷ vs) = count_healthy (count_one (is_healthy v) v.registration healthy) vs

-- the second loop: `WithLabelValues(experiment).Set(count)`
unfoldable pub set_gauges : Map ℕ → Map ℕ → Map ℕ
set_gauges gauges [] = gauges
set_gauges gauges ((experiment, count) ∷ rest) = set_gauges (insert experiment count gauges) rest

unfoldable pub update_metrics : Map ℕ → Map HeartbeatMessage → Map ℕ
unfolding count_healthy set_gauges
update_metrics gauges instances = set_gauges gauges (count_healthy [] (values instances))

-- 1 for a healthy instance of the experiment
abbrev one_if : String → Bool → Option Registration → ℕ
one_if experiment true (some r) = if r.experiment == experiment then 1 else 0
one_if experiment _ _ = 0

-- The number of healthy instances of an experiment.
unfoldable pub healthy_of : String → List HeartbeatMessage → ℕ
healthy_of experiment [] = 0
healthy_of experiment (v ∷ vs) =
    one_if experiment (is_healthy v) v.registration + healthy_of experiment vs

abbrev pub positive : ℕ → Option ℕ
positive zero = none
positive (suc n) = some (suc n)

or_zero-count_one :
    (e : String) (b : Bool) (r : Option Registration) (m : Map ℕ)
    → or_zero (lookup e (count_one b r m)) ≡ one_if e b r + or_zero (lookup e m)
unfolding count_one
or_zero-count_one e false r m = omega arith
or_zero-count_one e true none m = omega arith
or_zero-count_one e true (some r) m = ground (
  arith,
  lookup-insert r.experiment e (or_zero (lookup r.experiment m) + 1) m,
  eq_iff r.experiment e,
)

or_zero-count_healthy :
    (e : String) (m : Map ℕ) (vs : List HeartbeatMessage)
    → or_zero (lookup e (count_healthy m vs)) ≡ healthy_of e vs + or_zero (lookup e m)
unfolding count_healthy healthy_of
or_zero-count_healthy e m [] = omega arith
or_zero-count_healthy e m (v ∷ vs) = omega (
  arith,
  or_zero-count_healthy e (count_one (is_healthy v) v.registration m) vs,
  or_zero-count_one e (is_healthy v) v.registration m,
)

-- A map whose counts are all above 0.
abbrev IsPositive : Option ℕ → Type 0
IsPositive o = o ≡ positive (or_zero o)

count_healthy-IsPositive :
    (e : String) (vs : List HeartbeatMessage) (m : Map ℕ)
    → IsPositive (lookup e m)
    → IsPositive (lookup e (count_healthy m vs))
unfolding count_healthy
count_healthy-IsPositive e [] m h = h
count_healthy-IsPositive e (v ∷ vs) m h =
    count_healthy-IsPositive e vs _ (step (is_healthy v) v.registration)
  where
    step : (b : Bool) (r : Option Registration) → IsPositive (lookup e (count_one b r m))
    step false r = h
    step true none = h
    step true (some r) =
        ground (arith, h, lookup-insert r.experiment e (or_zero (lookup r.experiment m) + 1) m)

count_healthy-DistinctKeys :
    (vs : List HeartbeatMessage) (m : Map ℕ) → DistinctKeys m → DistinctKeys (count_healthy m vs)
unfolding count_healthy
count_healthy-DistinctKeys [] m h = h
count_healthy-DistinctKeys (v ∷ vs) m h =
    count_healthy-DistinctKeys vs _ (step (is_healthy v) v.registration)
  where
    step : (b : Bool) (r : Option Registration) → DistinctKeys (count_one b r m)
    step false r = h
    step true none = h
    step true (some r) = DistinctKeys-insert r.experiment _ m h

abbrev or_else : Option ℕ → Option ℕ → Option ℕ
or_else none o = o
or_else (some n) o = some n

lookup-absent : (e : String) (m : Map ℕ) → contains (keys m) e ≡ false → lookup e m ≡ none
unfolding lookup contains keys
lookup-absent e [] h = refl
lookup-absent e (x ∷ m) h = ground (arith, lookup-absent e m)

lookup-set_gauges :
    (e : String) (counts gauges : Map ℕ)
    → DistinctKeys counts
    → lookup e (set_gauges gauges counts) ≡ or_else (lookup e counts) (lookup e gauges)
unfolding set_gauges lookup
lookup-set_gauges e [] gauges d = refl
lookup-set_gauges e ((x, n) ∷ rest) gauges d = ground (
  arith,
  lookup-set_gauges e rest (insert x n gauges) d.1,
  lookup-insert x e n gauges,
  eq_iff x e,
  lookup-absent e rest,
  d.0,
)

-- After an import the gauge of an experiment is the number of its healthy instances, if there is one;
-- an experiment without healthy instances keeps its last count.
pub lookup-update_metrics :
    (e : String) (gauges : Map ℕ) (instances : Map HeartbeatMessage)
    → lookup e (update_metrics gauges instances) ≡ (
        if nat_eq (healthy_of e (values instances)) 0
        then lookup e gauges
        else some (healthy_of e (values instances)))
unfolding update_metrics
lookup-update_metrics e gauges instances =
    let counts = count_healthy [] (values instances) in
    ground (
      arith,
      lookup-set_gauges e counts gauges (count_healthy-DistinctKeys (values instances) [] tt),
      count_healthy-IsPositive e (values instances) [] (rw (lookup-nil {V = ℕ} e)),
      or_zero-count_healthy e [] (values instances),
      lookup-nil {V = ℕ} e,
    )
