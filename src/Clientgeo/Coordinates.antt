-- ===== src/Clientgeo/Coordinates.antt =====
-- clientgeo/appengine.go: the latitude and the longitude in a text, and tables of such texts.
use Prim.Native.Char.{Char, code}
use Prim.Native.String.{String}
use locate.Prelude.{
  ℕ, ◌+◌, ◌-◌, ◌*◌, Bool, true, false, ◌&&◌, ◌≡◌, refl, map, some, List, [], ◌∷◌, ◌++◌, ◌==◌,
  if◌then◌else◌, nat_eq, ltb, leb, Result, ok, err, arith,
}
use locate.Prelude.Maps.{Map, lookup}

-- `Location`, with the first value of each header
pub record Location : Type 0 where
  pub latitude : String
  pub longitude : String
  pub headers : Map String

pub data LocateError : Type 0 where
  no_user_parameters unusable_user_parameters bad_lat_lon_format null_lat_lon no_country :
      LocateError

abbrev put_first : Char → List String → List String
put_first c [] = []
put_first c (f ∷ fs) = (String.◌∷◌ c f) ∷ fs

-- `strings.Split(s, ",")`
unfoldable pub split_commas : String → List String
split_commas String.[] = "" ∷ []
split_commas (String.◌∷◌ c s) =
    let fields = split_commas s in if nat_eq (code c) 44 then "" ∷ fields else put_first c fields

-- What `splitLatLon` returns; the empty location beside an error is used by no caller.
unfoldable pub from_fields : List String → Result LocateError Location
from_fields (lat ∷ lon ∷ []) = ok (record { latitude = lat; longitude = lon; headers = [] })
from_fields _ = err bad_lat_lon_format

unfoldable pub split_lat_lon : String → Result LocateError Location
unfolding split_commas from_fields
split_lat_lon latlon =
    if latlon == "0.000000,0.000000" then err null_lat_lon else from_fields (split_commas latlon)

abbrev is_digit : Char → Bool
is_digit c = leb 48 (code c) && leb (code c) 57

abbrev all_digits : String → Bool
all_digits String.[] = true
all_digits (String.◌∷◌ c s) = is_digit c && all_digits s

-- digits, whose value after those read so far is below the limit, then at most a point and digits
abbrev below : ℕ → ℕ → String → Bool
below limit read String.[] = ltb read limit
below limit read (String.◌∷◌ c s) =
    let more = below limit (read * 10 + (code c - 48)) s in
    if is_digit c then more else ltb read limit && nat_eq (code c) 46 && all_digits s

abbrev unsigned_below : ℕ → String → Bool
unsigned_below limit String.[] = false
unsigned_below limit (String.◌∷◌ c s) = is_digit c && below limit (code c - 48) s

-- A decimal number of degrees, strictly between the limit and its opposite.
unfoldable pub within_degrees : ℕ → String → Bool
within_degrees limit String.[] = false
within_degrees limit (String.◌∷◌ c s) =
    if nat_eq (code c) 45 then unsigned_below limit s else unsigned_below limit (String.◌∷◌ c s)

unfoldable on_earth : Result LocateError Location → Bool
on_earth (ok loc) = within_degrees 90 loc.latitude && within_degrees 180 loc.longitude
on_earth (err e) = false

unfoldable pub all_places : Map String → Bool
unfolding split_lat_lon on_earth within_degrees
all_places [] = true
all_places (entry ∷ table) = on_earth (split_lat_lon entry.1) && all_places table

-- A table that is written in parts.
unfoldable pub join : List (Map String) → Map String
join [] = []
join (part ∷ parts) = part ++ join parts

-- Each entry of the table is a latitude and a longitude, in degrees.
pub record IsTable (table : Map String) : Type 0 where
  pub splits :
      (k ll : String)
      → lookup k table ≡ some ll
      → (loc : Location) × (split_lat_lon ll ≡ ok loc)
        × (within_degrees 90 loc.latitude ≡ true)
        × (within_degrees 180 loc.longitude ≡ true)

all_places-append :
    (part table : Map String)
    → all_places part ≡ true
    → all_places table ≡ true
    → all_places (part ++ table) ≡ true
unfolding all_places
all_places-append [] table h k = k
all_places-append (entry ∷ part) table h k = ground (arith, h, k, all_places-append part table)

-- A part, with what is known of its entries.
abbrev pub Checked : Type 0
Checked = (part : Map String) × (all_places part ≡ true)

pub all_places-join :
    (checked : List Checked) → all_places (join (map (λ part. part.0) checked)) ≡ true
unfolding join all_places
all_places-join [] = refl
all_places-join (part ∷ checked) =
    all_places-append part.0 (join (map (λ p. p.0) checked)) part.1 (all_places-join checked)

on_earth-ok :
    (r : Result LocateError Location)
    → on_earth r ≡ true
    → (loc : Location) × (r ≡ ok loc)
      × (within_degrees 90 loc.latitude ≡ true)
      × (within_degrees 180 loc.longitude ≡ true)
unfolding on_earth
on_earth-ok (ok loc) h = (loc, refl, ground (arith, h), ground (arith, h))
on_earth-ok (err e) h = cc

all_places-lookup :
    (table : Map String) (k ll : String)
    → all_places table ≡ true
    → lookup k table ≡ some ll
    → on_earth (split_lat_lon ll) ≡ true
unfolding lookup all_places
all_places-lookup [] k ll h e = cc
all_places-lookup (entry ∷ table) k ll h e = ground (arith, h, e, all_places-lookup table k ll)

pub all_places-IsTable : (table : Map String) → all_places table ≡ true → IsTable table
all_places-IsTable table h = record {
  splits = λ k ll e. on_earth-ok (split_lat_lon ll) (all_places-lookup table k ll h e);
}
