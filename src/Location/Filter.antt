-- ===== src/Location/Filter.antt =====
-- `filterSites`: group the valid instances by site, then keep each site or drop it at random.
pub mod Groups
pub mod Sound
use locate.Prelude.{
  ℕ, suc, String, Bool, false, ◌||◌, Option, none, some, List, [], ◌∷◌, ◌++◌, ◌==◌, ◌!=◌, ltb,
  length, if◌then◌else◌, ◌>>=◌,
}
use locate.Prelude.Maps.{Map, lookup, insert, values}
use locate.Api.{Registration, HeartbeatMessage}
use locate.Float.{Float64, lt}
use locate.Host.{HostPackage}
use locate.Location.Types.{NearestOptions, Machine, Site}
use locate.Location.Valid.{Haversine, is_valid_instance}

-- What the loop takes from one valid instance.
pub record Entry : Type 0 where
  pub registration : Registration
  pub machine : Machine
  pub distance : Float64

unfoldable pub new_site : Entry → Site
new_site e = record {
  distance = e.distance;
  rank = 0;
  metro_rank = 0;
  registration = record e.registration { hostname = ""; machine = "" };
  machines = [];
}

unfoldable pub add_machine : Option Site → Entry → Site
unfolding new_site
add_machine none e = record (new_site e) { machines = e.machine ∷ [] }
add_machine (some s) e = record s { machines = s.machines ++ e.machine ∷ [] }

unfoldable pub place : Map Site → Option Entry → Map Site
place m none = m
place m (some e) = insert e.registration.site (add_machine (lookup e.registration.site m) e) m

abbrev has_sites : Option (List String) → Bool
has_sites none = false
has_sites (some sites) = ltb 0 (length sites)

unfoldable pub always_pick : NearestOptions → Bool
always_pick opts = opts.type == "virtual" || has_sites opts.sites || opts.org != ""

-- `rand.Float64() < probability`, with the number that was drawn
unfoldable pub pick_with_probability : Float64 → Float64 → Bool
pick_with_probability drawn probability = lt drawn probability

-- The second loop; `draw n` is the `n`-th number drawn, and none is drawn where `always_pick` holds.
unfoldable pub keep_sites : NearestOptions → (ℕ → Float64) → ℕ → List Site → List Site
unfolding always_pick pick_with_probability
keep_sites opts draw n [] = []
keep_sites opts draw n (s ∷ ss) =
    let rest = keep_sites opts draw (suc n) ss in
    if always_pick opts || pick_with_probability (draw n) s.registration.probability
    then s ∷ rest
    else rest

module _ (H : HostPackage) (haversine : Haversine) where
  open H use {string, string_with_service}

  unfoldable pub entry :
      String → Float64 → Float64 → NearestOptions → HeartbeatMessage → Option Entry
  entry service lat lon opts v = do
    valid ← is_valid_instance H haversine service lat lon v opts
    r ← v.registration
    health ← v.health
    some (record {
      registration = r;
      machine = record {
        name = string valid.0;
        host = string_with_service valid.0;
        health = health;
      };
      distance = valid.1;
    })

  -- The first loop, over the instances in the order in which `range` gives them.
  unfoldable pub group_sites :
      String → Float64 → Float64 → NearestOptions → Map Site → List HeartbeatMessage → Map Site
  unfolding place
  group_sites service lat lon opts m [] = m
  group_sites service lat lon opts m (v ∷ vs) =
      group_sites service lat lon opts (place m (entry service lat lon opts v)) vs

  -- `order` is the order in which `range` walks the map of sites.
  unfoldable pub filter_sites :
      String
      → Float64
      → Float64
      → Map HeartbeatMessage
      → NearestOptions
      → (List Site → List Site)
      → (ℕ → Float64)
      → List Site
  unfolding group_sites keep_sites
  filter_sites service lat lon instances opts order draw =
      keep_sites opts draw 0
        (order (values (group_sites service lat lon opts [] (values instances))))
