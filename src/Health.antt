-- ===== src/Health.antt =====
-- cmd/heartbeat/health: the checks of an instance and the score that they make up.
pub mod Ports
pub mod Score
use locate.Prelude.{
  ℕ, String, Bool, true, false, not, ◌&&◌, ◌||◌, Option, none, some, List, [], ◌∷◌, ◌==◌,
  if◌then◌else◌, nat_eq,
}
use locate.Prelude.Maps.{Map, insert, keys}
use locate.Float.{Float64}
use locate.Url.{Url, UrlPackage}

abbrev pub zero_score : Float64
zero_score = record { negative = false; magnitude = 0 }

abbrev pub full_score : Float64
full_score = record { negative = false; magnitude = 0x3ff0_0000_0000_0000 }

module _ (U : UrlPackage) where
  unfoldable pub get_port : Url → String
  get_port url =
      let port = U.port url in
      if port == ""
      then (if url.scheme == "https" || url.scheme == "wss" then "443" else "80")
      else port

  -- the inner loop of `getPorts`
  unfoldable pub add_ports : List String → Map Bool → Map Bool
  unfolding get_port
  add_ports [] ports = ports
  add_ports (u ∷ us) ports = elim (U.parse u) [
    | none ↦ add_ports us ports
    | some url ↦ add_ports us (insert (get_port url) true ports)
  ]

  unfoldable pub get_ports_from : Map (List String) → Map Bool → Map Bool
  unfolding add_ports
  get_ports_from [] ports = ports
  get_ports_from ((name, s) ∷ services) ports = get_ports_from services (add_ports s ports)

  unfoldable pub get_ports : Map (List String) → Map Bool
  unfolding get_ports_from
  get_ports services = get_ports_from services []

-- `checkPorts`, over the keys in some order; `open_` says whether the port of this host accepts a
-- connection.
unfoldable pub check_ports : (String → Bool) → List String → Bool
check_ports open_ [] = true
check_ports open_ (p ∷ ports) = if open_ p then check_ports open_ ports else false

pub record Condition : Type 0 where
  pub type : String
  pub status : String

pub record Node : Type 0 where
  pub conditions : List Condition
  pub taints : List String  -- the keys

unfoldable pub is_in_maintenance : List String → Bool
is_in_maintenance [] = false
is_in_maintenance (taint ∷ taints) = if taint == "lame-duck" then true else is_in_maintenance taints

-- The answers of the API server; `none` where the request fails.
pub record Kubernetes : Type 0 where
  pub pod : Option String  -- the phase
  pub node : Option Node

unfoldable pub is_pod_running : Option String → Bool
is_pod_running none = true
is_pod_running (some phase) = phase == "Running"

unfoldable pub ready_from : Node → List Condition → Bool
unfolding is_in_maintenance
ready_from node [] = false
ready_from node (condition ∷ rest) =
    if condition.type == "Ready" && condition.status == "True"
    then not (is_in_maintenance node.taints)
    else ready_from node rest

unfoldable pub is_node_ready : Option Node → Bool
unfolding ready_from
is_node_ready none = true
is_node_ready (some node) = ready_from node node.conditions

-- the method `isHealthy`
unfoldable pub is_kubernetes_healthy : Kubernetes → Bool
unfolding is_pod_running is_node_ready
is_kubernetes_healthy k8s = is_pod_running k8s.pod && is_node_ready k8s.node

-- `checkHealthEndpoint`: `none` is an error, and else whether the status is 200.
unfoldable pub check_health_endpoint : Option ℕ → Option Bool
check_health_endpoint none = none
check_health_endpoint (some status) = some (nat_eq status 200)

abbrev refused_by : Option Bool → Bool
refused_by none = false
refused_by (some status) = not status

abbrev unhealthy_at : Option Kubernetes → Bool
unhealthy_at none = false
unhealthy_at (some k8s) = not (is_kubernetes_healthy k8s)

-- `Checker.GetHealth`, from the result of `checkPorts`, the answers of Kubernetes, where the checker
-- has a client for it, and the status of the endpoint
unfoldable pub get_health : Bool → Option Kubernetes → Option ℕ → Float64
unfolding is_kubernetes_healthy check_health_endpoint
get_health ports_open k8s endpoint =
    if not ports_open
    then zero_score
    else (if unhealthy_at k8s
        then zero_score
        else (if refused_by (check_health_endpoint endpoint) then zero_score else full_score))

unfoldable pub any_healthy : (String → String → Bool) → List String → Float64
any_healthy equal_fold [] = zero_score
any_healthy equal_fold (h ∷ hs) =
    if equal_fold h "HEALTHY" then full_score else any_healthy equal_fold hs

-- `GCPChecker.GetHealth`, from the health states that the load balancer reports; `equal_fold` is
-- `strings.EqualFold`
unfoldable pub get_gcp_health : (String → String → Bool) → Option (List String) → Float64
unfolding any_healthy
get_gcp_health equal_fold none = zero_score
get_gcp_health equal_fold (some states) = any_healthy equal_fold states
