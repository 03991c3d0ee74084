-- ===== src/Instance/Loading.antt =====
-- cmd/heartbeat/registration/registration.go: the registration of an instance, loaded from siteinfo.
use locate.Prelude.{
  String, Bool, false, Option, none, some, List, [], if◌then◌else◌, Result, ok, err,
}
use locate.Prelude.Maps.{Map, lookup}
use locate.Float.{Float64}
use locate.Host.{HostPackage}
use locate.Api.{Registration}

-- What `GetRegistration` fails with: `content.FromURL`, `Get`, `json.Unmarshal`, or no entry.
pub data LoadError : Type 0 where
  from_url_error get_error unmarshal_error not_registered : LoadError

pub record Loader (H : HostPackage) : Type 0 where
  pub hostname : H.Name
  pub exp : String
  pub svcs : Map (List String)
  pub reg : Registration

abbrev float_zero : Float64
float_zero = record { negative = false; magnitude = 0 }

-- `v2.Registration{}`
abbrev pub zero_registration : Registration
zero_registration = record {
  city = "";
  country_code = "";
  continent_code = "";
  experiment = "";
  hostname = "";
  latitude = float_zero;
  longitude = float_zero;
  machine = "";
  metro = "";
  project = "";
  probability = float_zero;
  site = "";
  type = "";
  uplink = "";
  services = [];
}

-- `NewLoader`, without its ticker; `none` is an error
unfoldable pub new_loader :
    (H : HostPackage) → Bool → String → String → Map (List String) → Option (Loader H)
new_loader H has_url hostname exp svcs = elim (H.parse hostname) [
  | none ↦ none
  | some h ↦
      if has_url
      then some (record { hostname = h; exp = exp; svcs = svcs; reg = zero_registration })
      else none
]

module _ (H : HostPackage) where
  -- the entry of the machine, or else of the service
  unfoldable pub find : Loader H → Map Registration → Option Registration
  find ldr registrations = elim (lookup (H.string ldr.hostname) registrations) [
    | some v ↦ some v
    | none ↦ lookup (H.string_with_service ldr.hostname) registrations
  ]

  -- what is announced of a registration
  abbrev pub announced : Loader H → Registration → Registration
  announced ldr v = record v { experiment = ldr.exp; services = ldr.svcs }

-- `equal` is `cmp.Equal`.
module _ (H : HostPackage) (equal : Registration → Registration → Bool) where
  unfoldable pub update :
      Loader H → Registration → Loader H × Result LoadError (Option Registration)
  update ldr v =
      if equal ldr.reg v
      then (ldr, ok none)
      else (record ldr { reg = v }, ok (some (announced H ldr v)))

  unfoldable pub found :
      Loader H → Option Registration → Loader H × Result LoadError (Option Registration)
  unfolding update
  found ldr none = (ldr, err not_registered)
  found ldr (some v) = update ldr (record v { hostname = H.string_with_service ldr.hostname })

  -- `GetRegistration`, with the decoded download or what failed before
  unfoldable pub get_registration :
      Result LoadError (Map Registration)
      → Loader H
      → Loader H × Result LoadError (Option Registration)
  unfolding find found
  get_registration (err e) ldr = (ldr, err e)
  get_registration (ok registrations) ldr = found ldr (find H ldr registrations)
