-- ===== src/Health/Score.antt =====
-- When an instance is healthy.
use locate.Prelude.{
  ℕ, ◌≡◌, refl, Bool, true, false, not, ◌&&◌, ◌||◌, String, Option, none, some, List, [], ◌∷◌,
  arith, ◌==◌, nat_eq, if◌then◌else◌,
}
use locate.Prelude.Maps.{contains}
use locate.Health.{
  full_score, zero_score, Condition, Node, Kubernetes, is_in_maintenance, is_pod_running,
  ready_from, is_node_ready, is_kubernetes_healthy, check_health_endpoint, get_health,
}

-- some condition says that the node is ready
unfoldable pub reports_ready : List Condition → Bool
reports_ready [] = false
reports_ready (c ∷ cs) = (c.type == "Ready" && c.status == "True") || reports_ready cs

-- The pod runs, and the node is ready and not marked, as far as the API server answers.
abbrev pub runs : Option String → Bool
runs none = true
runs (some phase) = phase == "Running"

abbrev pub serves : Option Node → Bool
serves none = true
serves (some node) = reports_ready node.conditions && not (contains node.taints "lame-duck")

abbrev pub is_up : Option Kubernetes → Bool
is_up none = true
is_up (some k8s) = runs k8s.pod && serves k8s.node

-- The endpoint does not answer, or answers 200.
abbrev pub answers : Option ℕ → Bool
answers none = true
answers (some status) = nat_eq status 200

is_in_maintenance-contains :
    (taints : List String) → is_in_maintenance taints ≡ contains taints "lame-duck"
unfolding is_in_maintenance contains
is_in_maintenance-contains [] = refl
is_in_maintenance-contains (taint ∷ taints) = ground (arith, is_in_maintenance-contains taints)

ready_from-reports_ready :
    (node : Node) (cs : List Condition)
    → ready_from node cs ≡ (reports_ready cs && not (contains node.taints "lame-duck"))
unfolding ready_from reports_ready
ready_from-reports_ready node [] = refl
ready_from-reports_ready node (c ∷ cs) =
    ground (arith, ready_from-reports_ready node cs, is_in_maintenance-contains node.taints)

is_kubernetes_healthy-is_up :
    (k8s : Kubernetes) → is_kubernetes_healthy k8s ≡ (runs k8s.pod && serves k8s.node)
unfolding is_kubernetes_healthy is_pod_running is_node_ready
is_kubernetes_healthy-is_up k8s = go k8s.pod k8s.node
  where
    go :
        (pod : Option String) (node : Option Node)
        → (is_pod_running pod && is_node_ready node) ≡ (runs pod && serves node)
    go none none = refl
    go (some phase) none = refl
    go none (some node) = ready_from-reports_ready node node.conditions
    go (some phase) (some node) = ground (arith, ready_from-reports_ready node node.conditions)

-- The score is 1 exactly when all ports are open, Kubernetes, where it is asked and answers, says that
-- the pod runs on a node that is ready and not a lame duck, and the endpoint, where it answers,
-- answers 200; otherwise the score is 0.
pub get_health-is_up :
    (ports_open : Bool) (k8s : Option Kubernetes) (endpoint : Option ℕ)
    → get_health ports_open k8s endpoint
      ≡ (if ports_open && is_up k8s && answers endpoint then full_score else zero_score)
unfolding get_health check_health_endpoint
get_health-is_up ports_open none none = ground arith
get_health-is_up ports_open none (some status) = ground arith
get_health-is_up ports_open (some k8s) none = ground (arith, is_kubernetes_healthy-is_up k8s)
get_health-is_up ports_open (some k8s) (some status) =
    ground (arith, is_kubernetes_healthy-is_up k8s)
