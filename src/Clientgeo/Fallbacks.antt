-- ===== src/Clientgeo/Fallbacks.antt =====
-- Where App Engine's headers and a list of locators find a client.
use Prim.Native.String.{◌++◌}
use mathlib.Core.Path.{subst}
use locate.Prelude.{
  ◌↔◌, not, ◌≢◌, sym, ap, ◌∙◌, eq_iff, String, ◌≡◌, refl, ◌⊎◌, inl, inr, Bool, true, false, ◌&&◌,
  ◌||◌, Option, none, some, ◌==◌, if◌then◌else◌, Result, ok, err,
}
use locate.Prelude.Maps.{Map, lookup, insert, lookup-insert}
use locate.Static.Countries.{countries, countries-IsTable}
use locate.Static.Regions.{regions, regions-IsTable}
use locate.Clientgeo.Coordinates.{Location, LocateError, no_country, split_lat_lon, IsTable}
use locate.Clientgeo.{
  AppEngineHeaders, located_at, with_headers, value_of, region_of, fall_back, first_or_fall_back,
  app_engine_locate,
}

-- The coordinates of the text, with the two headers that tell where they come from.
pub record IsAt (latlon method : String) (loc : Location) : Type 0 where
  pub place : Location
  pub split : split_lat_lon latlon ≡ ok place
  pub latitude : loc.latitude ≡ place.latitude
  pub longitude : loc.longitude ≡ place.longitude
  pub text : lookup "X-Locate-Clientlatlon" loc.headers ≡ some latlon
  pub source : lookup "X-Locate-Clientlatlon-Method" loc.headers ≡ some method

with_headers-IsAt :
    (latlon method : String) (place : Location)
    → split_lat_lon latlon ≡ ok place
    → IsAt latlon method (with_headers latlon method place)
with_headers-IsAt latlon method place e = record {
  place = place;
  split = e;
  latitude = refl;
  longitude = refl;
  text =
      lookup-insert "X-Locate-Clientlatlon-Method" "X-Locate-Clientlatlon" method
        (insert "X-Locate-Clientlatlon" latlon place.headers)
      ∙ lookup-insert "X-Locate-Clientlatlon" "X-Locate-Clientlatlon" latlon place.headers;
  source =
      lookup-insert "X-Locate-Clientlatlon-Method" "X-Locate-Clientlatlon-Method" method
        (insert "X-Locate-Clientlatlon" latlon place.headers);
}

-- The client is located at the coordinates of the text.
abbrev pub IsLocatedAt : String → String → Result LocateError Location → Type 0
IsLocatedAt latlon method r = (loc : Location) × (r ≡ ok loc) × IsAt latlon method loc

located_at-IsLocatedAt :
    (latlon method : String)
    → (loc : Location) × (split_lat_lon latlon ≡ ok loc)
    → IsLocatedAt latlon method (located_at latlon method (split_lat_lon latlon))
unfolding located_at
located_at-IsLocatedAt latlon method (loc, e) =
    (with_headers latlon method loc, rw e refl, with_headers-IsAt latlon method loc e)

located_at-value_of :
    (o : Option String) (ll method : String)
    → o ≡ some ll
    → (loc : Location) × (split_lat_lon ll ≡ ok loc)
    → IsLocatedAt ll method (located_at (value_of o) method (split_lat_lon (value_of o)))
located_at-value_of o ll method e split =
    subst (λ v. IsLocatedAt ll method (located_at v method (split_lat_lon v))) (sym (ap value_of e))
      (located_at-IsLocatedAt ll method split)

split_empty : (loc : Location) → split_lat_lon "" ≡ ok loc → ⊥
unfolding split_lat_lon
split_empty loc e = cc

-- The value is missing, or it is a text of coordinates; the test says whether it is missing.
abbrev IsEntry : Option String → Bool → Type 0
IsEntry o missing =
    ((o ≡ none) × (missing ≡ true))
    ⊎ ((ll : String) × (o ≡ some ll)
        × (missing ≡ false)
        × ((loc : Location) × (split_lat_lon ll ≡ ok loc)))

value_of-known :
    (table : Map String)
    → IsTable table
    → (k : String) → IsEntry (lookup k table) (value_of (lookup k table) == "")
value_of-known table known k = go (lookup k table) refl
  where
    go : (o : Option String) → lookup k table ≡ o → IsEntry o (value_of o == "")
    go none e = inl (refl, refl)
    go (some ll) e =
        let split = known.splits k ll e in
        inr (ll, refl, decide (ll == "") (eq_iff ll "").0 split.0 split.1, (split.0, split.1))
      where
        decide :
            (b : Bool)
            → (b ≡ true → ll ≡ "")
            → (loc : Location) → split_lat_lon ll ≡ ok loc
            → b ≡ false
        decide true is loc s = absurd (split_empty loc (ap split_lat_lon (sym (is refl)) ∙ s))
        decide false is loc s = refl

module _ (to_upper : String → String) where
  abbrev region_key : AppEngineHeaders → String
  region_key h = h.country ++ "-" ++ to_upper h.region

  -- The country is in no table; or the region of a country that is; or the country, where the region is
  -- not given or is in no table.
  abbrev pub IsFallenBack : AppEngineHeaders → Result LocateError Location → Type 0
  IsFallenBack h r =
      ((r ≡ err no_country) × ((h.country ≡ "") ⊎ (lookup h.country countries ≡ none)))
      ⊎ ((ll : String) × (lookup h.country countries ≡ some ll)
          × (h.country ≢ "")
          × (((to_upper h.region ≢ "")
                × (ll' : String) × (lookup (region_key h) regions ≡ some ll')
                × IsLocatedAt ll' "appengine-region" r)
              ⊎ (((to_upper h.region ≡ "") ⊎ (lookup (region_key h) regions ≡ none))
                  × IsLocatedAt ll "appengine-country" r)))

  fall_back-IsFallenBack : (h : AppEngineHeaders) → IsFallenBack h (fall_back to_upper h)
  fall_back-IsFallenBack h =
      go (h.country == "") (country == "") (to_upper h.region == "") (region == "")
        (eq_iff h.country "") (eq_iff (to_upper h.region) "")
        (value_of-known countries countries-IsTable h.country)
        (value_of-known regions regions-IsTable (region_key h))
    where
      country : String
      country = value_of (lookup h.country countries)

      region : String
      region = region_of to_upper h

      go :
          (c d r d' : Bool)
          → (c ≡ true) ↔ (h.country ≡ "")
          → (r ≡ true) ↔ (to_upper h.region ≡ "")
          → IsEntry (lookup h.country countries) d
          → IsEntry (lookup (region_key h) regions) d'
          → IsFallenBack h (
              if c || d
              then err no_country
              else (if not r && not d'
                  then located_at region "appengine-region" (split_lat_lon region)
                  else located_at country "appengine-country" (split_lat_lon country)))
      go true d r d' x y k l = inl (refl, inl (x.0 refl))
      go false d r d' x y (inl (e, m)) l = rw m (inl (refl, inr e))
      go false d true d' x y (inr (ll, e, m, split)) l = rw m (
          inr (
            ll,
            e,
            (λ n. let z = x.1 n in cc),
            inr (inl (y.0 refl), located_at-value_of _ ll "appengine-country" e split),
          ))
      go false d false d' x y (inr (ll, e, m, split)) (inl (e', m')) =
          rw (m, m')
            (inr (
              ll,
              e,
              (λ n. let z = x.1 n in cc),
              inr (inr e', located_at-value_of _ ll "appengine-country" e split),
            ))
      go false d false d' x y (inr (ll, e, m, split)) (inr (ll', e', m', split')) =
          rw (m, m')
            (inr (
              ll,
              e,
              (λ n. let z = x.1 n in cc),
              inl (
                (λ n. let z = y.1 n in cc),
                ll',
                e',
                located_at-value_of _ ll' "appengine-region" e' split',
              ),
            ))

  -- The coordinates of the city where they parse, and else what the country and the region give.
  abbrev pub IsLocatedBy : AppEngineHeaders → Result LocateError Location → Type 0
  IsLocatedBy h r =
      IsLocatedAt h.city_lat_long "appengine-latlong" r
      ⊎ ((e : LocateError) × (split_lat_lon h.city_lat_long ≡ err e) × IsFallenBack h r)

  -- The headers of App Engine locate every client at the coordinates of its city, where they parse, and
  -- else every client whose country is in the table: at the coordinates that the table of regions has for
  -- its region, written in capitals, and at those of the country where no region is given or that table does
  -- not have it. The headers of the location hold the text of the coordinates and where it comes from. The
  -- only error is that of a country that is not in the table.
  pub app_engine_locate-IsLocatedBy :
      (h : AppEngineHeaders) → IsLocatedBy h (app_engine_locate to_upper h)
  unfolding app_engine_locate
  app_engine_locate-IsLocatedBy h = go (split_lat_lon h.city_lat_long) refl
    where
      go :
          (r : Result LocateError Location)
          → split_lat_lon h.city_lat_long ≡ r
          → IsLocatedBy h (first_or_fall_back to_upper h r)
      go (ok city) split =
          inl ((_, refl, with_headers-IsAt h.city_lat_long "appengine-latlong" city split))
      go (err e) split = inr (e, split, fall_back-IsFallenBack h)
