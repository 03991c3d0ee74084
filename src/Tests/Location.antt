-- ===== src/Tests/Location.antt =====
-- heartbeat/location.go on two instances of different sites and the same metro.

use locate.Prelude.{
  ◌≤◌, String, ◌≡◌, refl, ◌↔◌, true, none, some, List, [], ◌∷◌, map, arith, All, ok, err, Result,
}
use locate.Prelude.Maps.{values, contains, lookup, insert}
use locate.Prelude.Perm.{Pairs, Distinct}
use locate.Tests.Samples.{
  half, one, plain_host, plain_url, plain_runtime, plain_runtime-IsFair, first_draws, registration,
  near, two_instances, virtual_only,
}
use locate.Api.{Registration}
use locate.Float.{is_nan, is_zero, lt}
use locate.Location.Types.{Target, Site, site_name}
use locate.Location.Valid.{is_valid_instance, is_healthy, check_registration, wrong_org}
use locate.Location.Valid.Spec.{IsUp, CanServe, is_valid_instance_iff}
use locate.Location.Filter.{Entry, filter_sites, always_pick, entry, add_machine, new_site}
use locate.Location.Filter.Groups.{at_site, site_of, entries}
use locate.Location.Filter.Sound.{filter_sites_sound, filter_sites_complete}
use locate.Location.Sort.{IsSorted, sort_sites, sort_sites-IsSorted}
use locate.Location.Sort.Insertion.{insertion}
use locate.Location.Rank.{rank}
use locate.Location.Rank.Metros.{ranked, metros_from, rank-ranked}
use locate.Location.Rank.Apart.{rank-apart}
use locate.Location.Pick.{TargetInfo, pick_targets}
use locate.Location.Pick.Spec.{IsPick, pick_targets-IsPick}
use locate.Location.Nearest.{nearest, NearestError, no_available_servers}
use locate.Location.Nearest.Machines.{IsServedBy}
use locate.Location.Nearest.Laws.{valid, nearest_total, nearest-ok, nearest-unavailable}

abbrev site_at : String → Site
site_at name = record {
  distance = one;
  rank = 0;
  metro_rank = 0;
  registration = registration "" name half;
  machines = record { name = name; host = name; health = record { score = one } } ∷ [];
}

abbrev two_sites : List Site
two_sites = site_at "lga01" ∷ record (site_at "lga02") { distance = half } ∷ []

abbrev found : List Site
found =
    filter_sites plain_host plain_runtime.haversine "ndt/ndt7" one one two_instances virtual_only
      plain_runtime.order plain_runtime.float64

abbrev able : List Entry
able =
    entries plain_host plain_runtime.haversine "ndt/ndt7" one one virtual_only
      (values two_instances)

is_valid_instance_iff_example :
    (is_valid_instance plain_host plain_runtime.haversine "ndt/ndt7" one one near virtual_only
      ≡ some ("near", half))
    ↔ ((r : Registration) × IsUp near r
        × (plain_host.parse r.hostname ≡ some "near")
        × CanServe plain_host plain_runtime.haversine "ndt/ndt7" one one virtual_only r "near" half)
is_valid_instance_iff_example =
    is_valid_instance_iff plain_host plain_runtime.haversine "ndt/ndt7" one one virtual_only near
      "near" half

filter_sites-sound_example :
    All (λ s. site_of (at_site (site_name s) able) ≡ some s) found × Distinct site_name found
filter_sites-sound_example =
    filter_sites_sound plain_host plain_runtime.haversine "ndt/ndt7" one one virtual_only
      two_instances plain_runtime.order plain_runtime.float64 plain_runtime-IsFair.shuffles

filter_sites-complete_example :
    All (λ e. contains (map site_name found) e.registration.site ≡ true) able
unfolding always_pick
filter_sites-complete_example =
    filter_sites_complete plain_host plain_runtime.haversine "ndt/ndt7" one one virtual_only
      two_instances plain_runtime.order plain_runtime.float64 plain_runtime-IsFair.shuffles refl

sort_sites-IsSorted_example : IsSorted (sort_sites insertion two_sites)
unfolding is_nan
sort_sites-IsSorted_example = sort_sites-IsSorted insertion two_sites (refl, (refl, tt))

rank-ranked_example : rank two_sites ≡ ranked 0 (metros_from [] two_sites) two_sites
rank-ranked_example = rank-ranked two_sites

rank-apart_example :
    Pairs
      (λ s t. (s.registration.metro ≡ t.registration.metro) ↔ (s.metro_rank ≡ t.metro_rank))
      (rank two_sites)
rank-apart_example = rank-apart two_sites

pick_targets-IsPick_example :
    (info : TargetInfo) × (pick_targets plain_url first_draws "ndt/ndt7" two_sites ≡ some info)
    × IsPick plain_url first_draws "ndt/ndt7" 2 two_sites [] none info
pick_targets-IsPick_example =
    pick_targets-IsPick plain_url first_draws "ndt/ndt7" plain_runtime-IsFair.in_range two_sites
      (omega arith)

nearest_total_example :
    (r : Result NearestError TargetInfo) × (nearest plain_runtime "ndt/ndt7" one one two_instances
        virtual_only
      ≡ some r)
nearest_total_example =
    nearest_total plain_runtime plain_runtime-IsFair "ndt/ndt7" one one two_instances virtual_only

abbrev target : Site → Target
target s = record {
  machine = site_name s;
  hostname = site_name s;
  location = some (record { city = "New York"; country = "US" });
  urls = [];
}

abbrev answer : TargetInfo
answer = record {
  targets = target (site_at "near") ∷ target (site_at "far") ∷ [];
  urls = some (record { scheme = "wss"; host = "wss://:443/ndt"; path = "/"; raw_query = "" } ∷ []);
  ranks = ("near", 0) ∷ ("far", 0) ∷ [];
}

-- The nearer instance comes first.
answer_lem : nearest plain_runtime "ndt/ndt7" one one two_instances virtual_only ≡ some (ok answer)
unfolding nearest filter_sites entry is_valid_instance is_healthy check_registration wrong_org
    contains lookup insert lt values sort_sites insertion rank pick_targets always_pick is_zero
    add_machine new_site
answer_lem = refl

nearest-ok_example :
    (1 ≤ 2)
    × (2 ≤ 4)
    × All
        (IsServedBy
          (valid plain_runtime plain_runtime-IsFair "ndt/ndt7" one one two_instances virtual_only))
        answer.targets
nearest-ok_example =
    nearest-ok plain_runtime plain_runtime-IsFair "ndt/ndt7" one one two_instances virtual_only
      answer answer_lem

nearest-unavailable_example :
    (nearest plain_runtime "ndt/ndt7" one one two_instances virtual_only
      ≡ some (err no_available_servers))
    ↔ (valid plain_runtime plain_runtime-IsFair "ndt/ndt7" one one two_instances virtual_only ≡ [])
unfolding always_pick
nearest-unavailable_example =
    nearest-unavailable plain_runtime plain_runtime-IsFair "ndt/ndt7" one one two_instances
      virtual_only refl
