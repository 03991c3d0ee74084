-- ===== src/Clientgeo/Bounds.antt =====
-- What bounds the coordinates of a client that `UserLocator` locates.
use mathlib.Core.Path.{subst}
use locate.Prelude.{
  ◌≤◌, String, ◌≡◌, refl, ◌↔◌, ◌⊎◌, inl, inr, Bool, true, false, ◌&&◌, Option, none, some, arith,
  ◌==◌, ◌!=◌, if◌then◌else◌, Result, ok, err,
}
use locate.Prelude.Maps.{Map, lookup}
use locate.Float.{Float64, is_nan, is_inf, lt}
use locate.Static.Countries.{countries, countries-IsTable}
use locate.Static.Regions.{regions, regions-IsTable}
use locate.Clientgeo.Coordinates.{
  Location, LocateError, no_user_parameters, unusable_user_parameters, split_lat_lon,
  within_degrees, IsTable,
}
use locate.Clientgeo.{
  Hints, usable, ninety, half_turn, located_at, by_country, by_region, from_hints, user_locate,
}

-- Every entry of the tables of countries and of regions is a text of two decimal numbers, a latitude
-- strictly between -90 and 90 degrees and a longitude strictly between -180 and 180, and none of them
-- is the null location that `splitLatLon` refuses.
pub tables-IsTable : IsTable countries × IsTable regions
tables-IsTable = (countries-IsTable, regions-IsTable)

-- The bound of a coordinate on its bits, which order the values of one sign.
abbrev pub Within : Float64 → Float64 → Type 0
Within bound x = x.magnitude ≤ bound.magnitude

pub usable_iff :
    (flat flon : Float64)
    → (usable (some flat) (some flon) ≡ true)
      ↔ (Within (ninety false) flat × Within (half_turn false) flon)
unfolding usable is_nan is_inf lt
usable_iff flat flon =
    ((λ h. (ground (arith, h), ground (arith, h))), λ within. ground (arith, within.0, within.1))

module _ (parse_float : String → Option Float64) where
  -- Coordinates that parse and are in range, or decimal numbers of degrees in range.
  abbrev pub IsBounded : Location → Type 0
  IsBounded loc =
      ((flat : Float64) × (flon : Float64) × (parse_float loc.latitude ≡ some flat)
        × (parse_float loc.longitude ≡ some flon)
        × Within (ninety false) flat
        × Within (half_turn false) flon)
      ⊎ ((within_degrees 90 loc.latitude ≡ true) × (within_degrees 180 loc.longitude ≡ true))

  abbrev OnlyBounded : Result LocateError Location → Type 0
  OnlyBounded (ok loc) = IsBounded loc
  OnlyBounded (err e) = Unit

  located_at-OnlyBounded :
      (table : Map String)
      → IsTable table
      → (k ll method : String) → lookup k table ≡ some ll
      → OnlyBounded (located_at ll method (split_lat_lon ll))
  unfolding located_at
  located_at-OnlyBounded table known k ll method e =
      let (loc, split, lat, lon) = known.splits k ll e in rw split (inr (lat, lon))

  by_country-OnlyBounded : (h : Hints) → OnlyBounded (by_country h (lookup h.country countries))
  by_country-OnlyBounded h = go (lookup h.country countries) refl
    where
      lenient :
          (b : Bool) (ll : String)
          → lookup h.country countries ≡ some ll
          → OnlyBounded (
              if b then located_at ll "user-country" (split_lat_lon ll) else err no_user_parameters)
      lenient true ll e =
          located_at-OnlyBounded countries countries-IsTable h.country ll "user-country" e
      lenient false ll e = tt

      go : (o : Option String) → lookup h.country countries ≡ o → OnlyBounded (by_country h o)
      go none e = tt
      go (some ll) e = lenient (h.strict != "true") ll e

  by_region-OnlyBounded : (h : Hints) → OnlyBounded (by_region h (lookup h.region regions))
  by_region-OnlyBounded h = go (lookup h.region regions) refl
    where
      go : (o : Option String) → lookup h.region regions ≡ o → OnlyBounded (by_region h o)
      go none e = by_country-OnlyBounded h
      go (some ll) e = located_at-OnlyBounded regions regions-IsTable h.region ll "user-region" e

  user_locate-OnlyBounded : (h : Hints) → OnlyBounded (user_locate parse_float h)
  unfolding user_locate
  user_locate-OnlyBounded h = go (h.lat != "" && h.lon != "")
    where
      check :
          (flat flon : Option Float64)
          → parse_float h.lat ≡ flat
          → parse_float h.lon ≡ flon
          → OnlyBounded
              (if usable flat flon then ok (from_hints h) else err unusable_user_parameters)
      check (some flat) (some flon) e e' = decide (usable (some flat) (some flon)) refl
        where
          decide :
              (b : Bool)
              → usable (some flat) (some flon) ≡ b
              → OnlyBounded (if b then ok (from_hints h) else err unusable_user_parameters)
          decide true u =
              let (lat, lon) = (usable_iff flat flon).0 u in inl (flat, flon, e, e', lat, lon)
          decide false u = tt
      check none flon e e' = tt
      check (some flat) none e e' = tt

      go :
          (b : Bool)
          → OnlyBounded (
              if b
              then (if usable (parse_float h.lat) (parse_float h.lon)
                  then ok (from_hints h)
                  else err unusable_user_parameters)
              else by_region h (lookup h.region regions))
      go true = check (parse_float h.lat) (parse_float h.lon) refl refl
      go false = by_region-OnlyBounded h

  -- A client is located only where latitude and longitude are in range: those of the request parse to
  -- numbers that are no NaN and of at most 90 and 180 degrees, and those of the tables are decimal numbers
  -- below 90 and 180.
  pub user_locate-IsBounded :
      (h : Hints) (loc : Location) → user_locate parse_float h ≡ ok loc → IsBounded loc
  user_locate-IsBounded h loc e = subst OnlyBounded e (user_locate-OnlyBounded h)

  -- Conversely the coordinates of every request that parse and are in range are used.
  pub user_locate-given :
      (h : Hints) (flat flon : Float64)
      → (h.lat == "") ≡ false
      → (h.lon == "") ≡ false
      → parse_float h.lat ≡ some flat
      → parse_float h.lon ≡ some flon
      → Within (ninety false) flat
      → Within (half_turn false) flon
      → user_locate parse_float h ≡ ok (from_hints h)
  unfolding user_locate
  user_locate-given h flat flon lat_given lon_given e e' lat lon =
      let u = (usable_iff flat flon).1 (lat, lon) in
      rw lat_given (rw lon_given (rw e (rw e' (rw u refl))))
