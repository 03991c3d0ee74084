-- ===== src/Location/Pick.antt =====
-- `pickTargets`: up to four sites at random, the near ones more often, and a machine of each.
pub mod Spec
use locate.Prelude.{
  ℕ, zero, suc, ◌%◌, min, String, Option, none, some, List, [], ◌∷◌, map, length, get_elem?,
  erase_idx, ◌>>=◌, ◌>>◌,
}
use locate.Prelude.Maps.{Map, lookup, insert}
use locate.Api.{Registration}
use locate.Url.{Url, UrlPackage, no_url}
use locate.Location.Types.{Machine, Site, Target, TargetLocation}

-- What `mathx.GetExpDistributedInt(6)` and `mathx.GetRandomInt(n)` return in round `i`.
pub record Draws : Type 0 where
  pub exp_int : ℕ → ℕ
  pub random_int : ℕ → ℕ → ℕ

pub record TargetInfo : Type 0 where
  pub targets : List Target
  pub urls : Option (List Url)  -- `none` is the nil slice
  pub ranks : Map ℕ

abbrev or_empty : Option (List String) → List String
or_empty none = []
or_empty (some urls) = urls

abbrev url_or_zero : Option Url → Url
url_or_zero none = no_url
url_or_zero (some u) = u

-- `x % n`, which panics where `n` is 0
unfoldable pub checked_mod : ℕ → ℕ → Option ℕ
checked_mod x zero = none
checked_mod x (suc n) = some (x % suc n)

unfoldable pub target_of : Site → Machine → Target
target_of s machine = record {
  machine = machine.name;
  hostname = machine.host;
  location = some (record { city = s.registration.city; country = s.registration.country_code });
  urls = [];
}

module _ (U : UrlPackage) (draws : Draws) (service : String) where
  -- A template that does not parse leaves the zero URL in its place.
  unfoldable pub get_urls : Registration → List Url
  get_urls r = map (λ u. url_or_zero (U.parse u)) (or_empty (lookup service r.services))

  unfoldable pub first_urls : Option (List Url) → Registration → List Url
  unfolding get_urls
  first_urls none r = get_urls r
  first_urls (some urls) r = urls

  -- `left` rounds from round `i` on; `none` is a run-time panic.
  unfoldable pub pick_from : ℕ → ℕ → List Site → Map ℕ → Option (List Url) → Option TargetInfo
  unfolding checked_mod target_of first_urls
  pick_from zero i sites ranks urls = some (record { targets = []; urls = urls; ranks = ranks })
  pick_from (suc left) i sites ranks urls = do
    index ← checked_mod (draws.exp_int i) (length sites)
    s ← get_elem? sites index
    machine ← get_elem? s.machines (draws.random_int i (length s.machines))
    rest ←
        pick_from left (suc i) (erase_idx sites index) (insert machine.name s.metro_rank ranks)
          (some (first_urls urls s.registration))
    some (record rest { targets = target_of s machine ∷ rest.targets })

  unfoldable pub pick_targets : List Site → Option TargetInfo
  unfolding pick_from
  pick_targets sites = pick_from (min 4 (length sites)) 0 sites [] none
