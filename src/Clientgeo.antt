-- ===== src/Clientgeo.antt =====
-- clientgeo: where a client is, by its hints, by App Engine's headers, or by the first locator that knows.
pub mod Bounds
pub mod Fallbacks
pub mod Maxmind
pub mod First
pub mod Coordinates
use Prim.Native.String.{String, ◌++◌}
use locate.Prelude.{
  ℕ, Bool, true, false, not, ◌&&◌, ◌||◌, Option, none, some, List, [], ◌∷◌, ◌==◌, ◌!=◌,
  if◌then◌else◌, nat_eq, Result, ok, err,
}
use locate.Prelude.Maps.{Map, lookup, insert}
use locate.Clientgeo.Coordinates.{
  Location, LocateError, no_user_parameters, unusable_user_parameters, no_country, split_lat_lon,
}
use locate.Static.Countries.{countries}
use locate.Static.Regions.{regions}
use locate.Float.{Float64, lt, is_nan, is_inf}

-- The parameters of the query, "" for a missing one.
pub record Hints : Type 0 where
  pub lat : String
  pub lon : String
  pub region : String
  pub country : String
  pub strict : String

-- The headers `X-AppEngine-CityLatLong`, `-Country` and `-Region`.
pub record AppEngineHeaders : Type 0 where
  pub city_lat_long : String
  pub country : String
  pub region : String

-- The two headers that a locator sets.
abbrev pub with_headers : String → String → Location → Location
with_headers latlon method loc = record loc {
  headers =
      insert "X-Locate-Clientlatlon-Method" method
        (insert "X-Locate-Clientlatlon" latlon loc.headers);
}

unfoldable pub located_at :
    String → String → Result LocateError Location → Result LocateError Location
located_at latlon method (err e) = err e
located_at latlon method (ok loc) = ok (with_headers latlon method loc)

abbrev pub value_of : Option String → String
value_of none = ""
value_of (some s) = s

-- 90 and 180
abbrev pub ninety : Bool → Float64
ninety negative = record { negative = negative; magnitude = 0x4056_8000_0000_0000 }

abbrev pub half_turn : Bool → Float64
half_turn negative = record { negative = negative; magnitude = 0x4066_8000_0000_0000 }

unfoldable pub usable : Option Float64 → Option Float64 → Bool
usable (some flat) (some flon) = not (
    is_nan flat
    || is_inf flat
    || is_nan flon
    || is_inf flon
    || lt flat (ninety true)
    || lt (ninety false) flat
    || lt flon (half_turn true)
    || lt (half_turn false) flon)
usable _ _ = false

abbrev pub by_country : Hints → Option String → Result LocateError Location
by_country h none = err no_user_parameters
by_country h (some ll) =
    if h.strict != "true"
    then located_at ll "user-country" (split_lat_lon ll)
    else err no_user_parameters

abbrev pub by_region : Hints → Option String → Result LocateError Location
by_region h none = by_country h (lookup h.country countries)
by_region h (some ll) = located_at ll "user-region" (split_lat_lon ll)

-- the location of coordinates that the request gives
abbrev pub from_hints : Hints → Location
from_hints h =
    with_headers (h.lat ++ "," ++ h.lon) "user-latlon"
      (record { latitude = h.lat; longitude = h.lon; headers = [] })

module _ (parse_float : String → Option Float64) where
  -- `UserLocator.Locate`
  unfoldable pub user_locate : Hints → Result LocateError Location
  unfolding usable located_at split_lat_lon
  user_locate h =
      if h.lat != "" && h.lon != ""
      then (if usable (parse_float h.lat) (parse_float h.lon)
          then ok (from_hints h)
          else err unusable_user_parameters)
      else by_region h (lookup h.region regions)

module _ (to_upper : String → String) where
  abbrev pub region_of : AppEngineHeaders → String
  region_of h = value_of (lookup (h.country ++ "-" ++ to_upper h.region) regions)

  abbrev pub fall_back : AppEngineHeaders → Result LocateError Location
  fall_back h =
      let country = value_of (lookup h.country countries) in
      if h.country == "" || country == ""
      then err no_country
      else (if to_upper h.region != "" && region_of h != ""
          then located_at (region_of h) "appengine-region" (split_lat_lon (region_of h))
          else located_at country "appengine-country" (split_lat_lon country))

  abbrev pub first_or_fall_back :
      AppEngineHeaders → Result LocateError Location → Result LocateError Location
  first_or_fall_back h (ok loc) = ok (with_headers h.city_lat_long "appengine-latlong" loc)
  first_or_fall_back h (err e) = fall_back h

  -- `AppEngineLocator.Locate`; `to_upper` is `strings.ToUpper`
  unfoldable pub app_engine_locate : AppEngineHeaders → Result LocateError Location
  unfolding located_at split_lat_lon
  app_engine_locate h = first_or_fall_back h (split_lat_lon h.city_lat_long)

-- `NullLocator.Locate`, which no error comes from
abbrev pub null_locate : Location
null_locate = record { latitude = "0.000000"; longitude = "0.000000"; headers = [] }

abbrev pub or_more : {E : Type 0} → E → Result (List E) Location → Result (List E) Location
or_more e (ok l) = ok l
or_more e (err es) = err (e ∷ es)

-- `MultiLocator.Locate`: a location, or the errors of all locators.
module _ {Request : Type 0} {E : Type 0} where
  unfoldable pub multi_locate :
      List (Request → Result E Location) → Request → Result (List E) Location
  multi_locate [] req = err []
  multi_locate (locator ∷ locators) req =
      let rest = multi_locate locators req in
      elim (locator req) [ ok l ↦ ok l | err e ↦ or_more e rest ]

-- `MultiLocator.Reload`, where the state holds what the locators have loaded
unfoldable multi_reload : {State : Type 0} → List (State → State) → State → State
multi_reload [] state = state
multi_reload (reload ∷ reloads) state = multi_reload reloads (reload state)
