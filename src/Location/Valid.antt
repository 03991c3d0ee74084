-- ===== src/Location/Valid.antt =====
-- `isHealthy` and `isValidInstance`: which instances can serve a request.
pub mod Spec
use locate.Prelude.{
  String, Bool, true, false, not, ◌&&◌, Option, none, some, List, [], ◌∷◌, ◌==◌, ◌!=◌,
  if◌then◌else◌, ◌>>=◌, ◌>>◌, return_if,
}
use locate.Prelude.Maps.{contains, lookup}
use locate.Api.{Registration, Health, Prometheus, HeartbeatMessage}
use locate.Float.{Float64, is_zero, lt}
use locate.Host.{HostPackage}
use locate.Location.Types.{NearestOptions}

-- `static.EarthHalfCircumferenceKm`, the float 20038
abbrev pub earth_half_circumference_km : Float64
earth_half_circumference_km = record { negative = false; magnitude = 0x40d3_9180_0000_0000 }

abbrev prometheus_ok : Option Prometheus → Bool
prometheus_ok none = true
prometheus_ok (some p) = p.health

abbrev parts_healthy : Option Registration → Option Health → Option Prometheus → Bool
parts_healthy none _ _ = false
parts_healthy (some r) none _ = false
parts_healthy (some r) (some h) p = if is_zero h.score then false else prometheus_ok p

unfoldable pub is_healthy : HeartbeatMessage → Bool
is_healthy v = parts_healthy v.registration v.health v.prometheus

abbrev is_excluded : Option (List String) → String → Bool
is_excluded none site = false
is_excluded (some sites) site = not (contains sites site)

abbrev lacks_service : Option (List String) → Bool
lacks_service none = true
lacks_service (some _) = false

-- `mathx.GetHaversineDistance` of github.com/m-lab/go, in kilometres
abbrev pub Haversine : Type 0
Haversine = Float64 → Float64 → Float64 → Float64 → Float64

module _ (H : HostPackage) where
  open H use {Name, org, version}

  -- The tests on the machine's organisation.
  unfoldable pub wrong_org : NearestOptions → Name → Bool
  wrong_org opts name =
      opts.org != ""
      && (if opts.org != "mlab" && version name == "v2"
          then true
          else version name == "v3" && opts.org != org name)

module _ (H : HostPackage) (haversine : Haversine) where
  open H use {Name, parse}

  -- The tests on an instance with a registration whose host name was parsed.
  unfoldable pub check_registration :
      String → Float64 → Float64 → NearestOptions → Registration → Name → Option (Name × Float64)
  check_registration service lat lon opts r name = do
    return_if (opts.type != "" && opts.type != r.type)
    return_if (is_excluded opts.sites r.site)
    return_if (opts.country != "" && opts.strict && r.country_code != opts.country)
    return_if (wrong_org H opts name)
    return_if (lacks_service (lookup service r.services))
    let distance = haversine lat lon r.latitude r.longitude
    return_if (lt earth_half_circumference_km distance)
    some (name, distance)

  -- `none` where the code returns false.
  unfoldable pub is_valid_instance :
      String → Float64 → Float64 → HeartbeatMessage → NearestOptions → Option (Name × Float64)
  is_valid_instance service lat lon v opts = do
    return_if (not (is_healthy v))
    r ← v.registration
    name ← parse r.hostname
    check_registration service lat lon opts r name
