-- ===== src/Clientgeo/Maxmind.antt =====
-- clientgeo/maxmind.go: the locator that looks an address up in a database, which is loaded again and again.
pub mod Reloads
use Prim.Native.Char.{code}
use Prim.Native.String.{◌++◌}
use locate.Prelude.{
  ℕ, String, Bool, true, false, ◌&&◌, Option, none, some, List, [], ◌∷◌, ◌!=◌, if◌then◌else◌, ◌>>=◌,
  nat_eq, Result, ok, err,
}
use locate.Float.{Float64}
use locate.Clientgeo.Coordinates.{Location}

-- `X-Forwarded-For`, "" where it is missing, and `req.RemoteAddr`
pub record Addresses : Type 0 where
  pub forwarded_for : String
  pub remote_addr : String

-- The fields of `geoip2.City` that the locator reads.
pub record City : Type 0 where
  pub city_geo_name_id : ℕ
  pub country_geo_name_id : ℕ
  pub continent_geo_name_id : ℕ
  pub latitude : Float64
  pub longitude : Float64

pub data MaxmindError : Type 0 where
  unparsed_remote_addr nil_ip no_database database_error empty_result : MaxmindError

-- `isEmpty`
unfoldable pub is_empty : City → Bool
is_empty r =
    nat_eq r.city_geo_name_id 0
    && nat_eq r.country_geo_name_id 0
    && nat_eq r.continent_geo_name_id 0

-- `strings.Split(s, ", ")[0]`
unfoldable pub first_forwarded : String → String
first_forwarded String.[] = ""
first_forwarded (String.◌∷◌ c String.[]) = String.◌∷◌ c ""
first_forwarded (String.◌∷◌ c (String.◌∷◌ d s)) =
    let first = first_forwarded (String.◌∷◌ d s) in
    if nat_eq (code c) 44 && nat_eq (code d) 32 then "" else String.◌∷◌ c first

-- `net.ParseIP`, `none` for nil; `net.SplitHostPort` without the port, `none` for an error; `City` of the
-- reader of package geoip2, `none` for an error; and `fmt.Sprintf("%f", x)`.
module _ {Ip Reader : Type 0} (parse_ip : String → Option Ip) (split_host : String → Option String)
    (city : Reader → Ip → Option City) (show_float : Float64 → String) where
  -- `ipFromRequest`; the `none` inside is the nil address
  unfoldable pub ip_from_request : Addresses → Result MaxmindError (Option Ip)
  unfolding first_forwarded
  ip_from_request req =
      if first_forwarded req.forwarded_for != ""
      then ok (parse_ip (first_forwarded req.forwarded_for))
      else elim (split_host req.remote_addr) [
        | none ↦ err unparsed_remote_addr
        | some h ↦ ok (parse_ip h)
      ]

  abbrev pub located : City → Location
  located record_ =
      let lat = show_float record_.latitude in
      let lon = show_float record_.longitude in
      record {
        latitude = lat;
        longitude = lon;
        headers =
            ("X-Locate-Clientlatlon", lat ++ "," ++ lon)
            ∷ ("X-Locate-Clientlatlon-Method", "maxmind-remoteip")
            ∷ [];
      }

  unfoldable pub from_record : Option City → Result MaxmindError Location
  unfolding is_empty
  from_record none = err database_error
  from_record (some record_) = if is_empty record_ then err empty_result else ok (located record_)

  unfoldable pub from_ip : Option Reader → Option Ip → Result MaxmindError Location
  unfolding from_record
  from_ip maxmind none = err nil_ip
  from_ip none (some ip) = err no_database
  from_ip (some reader) (some ip) = from_record (city reader ip)

  unfoldable pub with_ip :
      Option Reader → Result MaxmindError (Option Ip) → Result MaxmindError Location
  unfolding from_ip
  with_ip maxmind (err e) = err e
  with_ip maxmind (ok ip) = from_ip maxmind ip

  -- `MaxmindLocator.Locate`
  unfoldable pub maxmind_locate : Option Reader → Addresses → Result MaxmindError Location
  unfolding ip_from_request with_ip
  maxmind_locate maxmind req = with_ip maxmind (ip_from_request req)

-- What `content.Provider.Get` returns: the archive, `content.ErrNoChange`, or another error.
pub data Download (Archive : Type 0) : Type 0 where
  archive : Archive → Download Archive
  no_change get_error : Download Archive

-- `tarreader.FromTarGZ` with the name of the file in it, and `geoip2.FromBytes`; `none` for an error.
module _ {Archive Bytes Reader : Type 0} (from_tar_gz : Archive → String → Option Bytes)
    (from_bytes : Bytes → Option Reader) where
  -- `load`: the reader, which may be nil, or `none` for an error
  unfoldable pub load : Option Reader → Download Archive → Option (Option Reader)
  load maxmind no_change = some maxmind
  load maxmind get_error = none
  load maxmind (archive tgz) = elim (from_tar_gz tgz "GeoLite2-City.mmdb" >>= from_bytes) [
    | none ↦ none
    | some mm ↦ some (some mm)
  ]

  -- `Reload`: the field `maxmind` after it
  unfoldable pub reload : Option Reader → Download Archive → Option Reader
  unfolding load
  reload maxmind got = elim (load maxmind got) [ none ↦ maxmind | some mm ↦ mm ]

  -- `NewMaxmindLocator`; `none` is the exit of the program
  unfoldable pub new_maxmind_locator : Download Archive → Option (Option Reader)
  unfolding load
  new_maxmind_locator got = load none got
