-- ===== src/Tests/Clientgeo.antt =====
-- clientgeo on small requests.
use locate.Prelude.{
  refl, true, false, ◌==◌, if◌then◌else◌, Option, none, some, String, ◌≡◌, ◌↔◌, List, [], ◌∷◌,
  Result, ok, err,
}
use locate.Clientgeo.Coordinates.{Location, LocateError, no_country}
use locate.Float.{Float64, is_nan, is_inf, lt}
use locate.Clientgeo.Bounds.{IsBounded, user_locate-IsBounded}
use locate.Clientgeo.Maxmind.{Download, archive, no_change, get_error}
use locate.Clientgeo.Maxmind.Reloads.{reloads, IsLatest, reloads-IsLatest}
use locate.Clientgeo.{
  usable, Hints, user_locate, from_hints, AppEngineHeaders, app_engine_locate, multi_locate,
}
use locate.Clientgeo.Fallbacks.{IsLocatedBy, app_engine_locate-IsLocatedBy}
use locate.Clientgeo.First.{IsFirst, multi_locate-IsFirst}

-- The city is unknown and the country is Andorra.
abbrev headers : AppEngineHeaders
headers = record { city_lat_long = "0.000000,0.000000"; country = "AD"; region = "" }

app_engine_locate-IsLocatedBy_example :
    IsLocatedBy (λ s. s) headers (app_engine_locate (λ s. s) headers)
app_engine_locate-IsLocatedBy_example = app_engine_locate-IsLocatedBy (λ s. s) headers

abbrev origin : Location
origin = record { latitude = "0"; longitude = "0"; headers = [] }

abbrev locators : List (String → Result LocateError Location)
locators = (λ req. err no_country) ∷ (λ req. ok origin) ∷ []

multi_locate-IsFirst_example :
    (multi_locate locators "request" ≡ ok origin) ↔ IsFirst "request" locators origin
multi_locate-IsFirst_example = multi_locate-IsFirst "request" locators origin

-- A float for each of two texts.
abbrev parse_float : String → Option Float64
parse_float s =
    if s == "-12.5"
    then some (record { negative = true; magnitude = 0x4029_0000_0000_0000 })
    else (if s == "179.9"
        then some (record { negative = false; magnitude = 0x4066_7ccc_cccc_cccd })
        else none)

abbrev hints : Hints
hints = record { lat = "-12.5"; lon = "179.9"; region = ""; country = "AD"; strict = "" }

hints_lem : user_locate parse_float hints ≡ ok (from_hints hints)
unfolding user_locate usable is_nan is_inf lt
hints_lem = refl

user_locate-IsBounded_example : IsBounded parse_float (from_hints hints)
user_locate-IsBounded_example = user_locate-IsBounded parse_float hints (from_hints hints) hints_lem

-- Archives and databases are texts; the archive "broken" holds no database.
abbrev from_tar_gz : String → String → Option String
from_tar_gz tgz name = if tgz == "broken" then none else some tgz

abbrev downloads : List (Download String)
downloads = archive "april" ∷ no_change ∷ archive "broken" ∷ get_error ∷ []

reloads-IsLatest_example :
    (reloads from_tar_gz some (some "march") downloads ≡ some "april")
    ↔ IsLatest from_tar_gz some (some "march") downloads "april"
reloads-IsLatest_example = reloads-IsLatest from_tar_gz some (some "march") downloads "april"
