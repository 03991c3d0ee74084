-- ===== src/Location/Nearest.antt =====
-- `Locator.Nearest`: filter, sort, rank, pick.
pub mod Machines
pub mod Laws
use locate.Prelude.{ℕ, String, Option, none, some, List, [], ◌∷◌, ◌>>=◌, Result, ok, err}
use locate.Prelude.Maps.{Map}
use locate.Api.{HeartbeatMessage}
use locate.Float.{Float64}
use locate.Host.{HostPackage}
use locate.Url.{UrlPackage}
use locate.Location.Types.{NearestOptions, Site, Target}
use locate.Location.Valid.{Haversine}
use locate.Location.Filter.{filter_sites}
use locate.Location.Sort.{SortSlice, sort_sites}
use locate.Location.Rank.{rank}
use locate.Location.Pick.{Draws, TargetInfo, pick_targets}

pub data NearestError : Type 0 where
  no_available_servers : NearestError

-- What a run takes from the packages outside the repository and from the Go runtime: the order in
-- which `range` walks a map, and the random numbers of each kind in the order they are drawn.
pub record Runtime : Type 1 where
  pub host : HostPackage
  pub url : UrlPackage
  pub haversine : Haversine
  pub sort : SortSlice
  pub order : List Site → List Site
  pub float64 : ℕ → Float64
  pub draws : Draws

abbrev check_targets : TargetInfo → List Target → Result NearestError TargetInfo
check_targets info [] = err no_available_servers
check_targets info (t ∷ ts) = ok info

module _ (R : Runtime) where
  -- The outer `none` is a run-time panic.
  unfoldable pub nearest :
      String
      → Float64
      → Float64
      → Map HeartbeatMessage
      → NearestOptions
      → Option (Result NearestError TargetInfo)
  nearest service lat lon instances opts = do
    let sites = filter_sites R.host R.haversine service lat lon instances opts R.order R.float64
    info ← pick_targets R.url R.draws service (rank (sort_sites R.sort sites))
    some (check_targets info info.targets)
