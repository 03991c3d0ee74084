-- ===== src/Tests/Tracker.antt =====
-- heartbeat/heartbeat.go on two instances.
use locate.Prelude.{◌≡◌, refl, true, false, some, [], ◌∷◌, if◌then◌else◌, nat_eq}
use locate.Prelude.Maps.{lookup, values, insert}
use locate.Api.{Registration, Health}
use locate.Tracker.{Tracker, new_tracker, register_instance, update_health, update_prometheus}
use locate.Tracker.Invariant.{IsKeyed, insert-IsKeyed}
use locate.Tracker.Metrics.{update_metrics, healthy_of, lookup-update_metrics}
use locate.Tracker.Laws.{IsRegistered, lookup-register_instance, IsUpdated, update_health-IsUpdated}
use locate.Tests.Samples.{half, one, plain_host, registration, near, far}
use locate.Tests.Stores.{forgetful, two_tracked}

abbrev newcomer : Registration
newcomer = registration "new" "lga03" half

abbrev new_health : Health
new_health = record { score = half }

nothing-IsKeyed : IsKeyed []
unfolding lookup
nothing-IsKeyed = record { own = λ k. tt }

pub two_tracked-IsKeyed : IsKeyed two_tracked.instances
unfolding insert
two_tracked-IsKeyed =
    insert-IsKeyed "near" near (("far", far) ∷ []) (registration "near" "lga02" half, refl, refl)
      (insert-IsKeyed "far" far [] (registration "far" "lga01" one, refl, refl) nothing-IsKeyed)

abbrev first : Tracker forgetful
first = new_tracker forgetful tt

abbrev after : Tracker forgetful
after = (update_health forgetful "new" new_health (register_instance forgetful newcomer first).0).0

lookup-register_instance_example :
    IsRegistered forgetful newcomer two_tracked
      (tt, true)
      (register_instance forgetful newcomer two_tracked)
lookup-register_instance_example = lookup-register_instance forgetful newcomer two_tracked

update_health-IsUpdated_example :
    IsUpdated forgetful "near" new_health two_tracked
      (tt, true)
      (update_health forgetful "near" new_health two_tracked)
update_health-IsUpdated_example = update_health-IsUpdated forgetful "near" new_health two_tracked

abbrev refreshed_tracker : Tracker forgetful
refreshed_tracker =
    (update_prometheus forgetful plain_host (("near", false) ∷ []) [] (λ l. l) two_tracked).0

lookup-update_metrics_example : lookup "ndt" (update_metrics [] two_tracked.instances) ≡ (
    if nat_eq (healthy_of "ndt" (values two_tracked.instances)) 0
    then lookup "ndt" []
    else some (healthy_of "ndt" (values two_tracked.instances)))
lookup-update_metrics_example = lookup-update_metrics "ndt" [] two_tracked.instances
