-- ===== src/Tests/Samples.antt =====
-- Two registered instances, and the simplest packages and runtime.
use mathlib.Core.List.Permᴰ
use locate.Prelude.{String, false, none, some, [], ◌∷◌, ◌==◌, if◌then◌else◌}
use locate.Prelude.Maps.{Map}
use locate.Api.{Registration, HeartbeatMessage}
use locate.Float.{Float64}
use locate.Host.{HostPackage}
use locate.Url.{UrlPackage}
use locate.Location.Types.{NearestOptions}
use locate.Location.Pick.{Draws}
use locate.Location.Sort.Insertion.{insertion}
use locate.Location.Nearest.{Runtime}
use locate.Location.Nearest.Laws.{IsFair}

abbrev pub half : Float64
half = record { negative = false; magnitude = 0x3fe0_0000_0000_0000 }

abbrev pub one : Float64
one = record { negative = false; magnitude = 0x3ff0_0000_0000_0000 }

abbrev pub float_zero : Float64
float_zero = record { negative = false; magnitude = 0 }

-- Names that are their own text; the empty text is none.
abbrev pub plain_host : HostPackage
plain_host = record {
  Name = String;
  parse = λ s. if s == "" then none else some s;
  string = λ n. n;
  string_with_service = λ n. n;
  org = λ _. "mlab";
  version = λ _. "v3";
  service = λ _. "ndt";
  set_service = λ s n. n;
}

abbrev pub plain_url : UrlPackage
plain_url = record {
  parse = λ s. some (record { scheme = "wss"; host = s; path = "/"; raw_query = "" });
  string = λ u. u.host;
  port = λ _. "";
}

abbrev pub first_draws : Draws
first_draws = record { exp_int = λ i. i; random_int = λ i n. 0 }

abbrev pub plain_runtime : Runtime
plain_runtime = record {
  host = plain_host;
  url = plain_url;
  haversine = λ lat lon lat' lon'. lat';
  sort = insertion;
  order = λ l. l;
  float64 = λ n. float_zero;
  draws = first_draws;
}

pub plain_runtime-IsFair : IsFair plain_runtime
plain_runtime-IsFair = record { shuffles = λ l. Permᴰ.refl l; in_range = λ i n h. h }

abbrev pub registration : String → String → Float64 → Registration
registration hostname site latitude = record {
  city = "New York";
  country_code = "US";
  continent_code = "NA";
  experiment = "ndt";
  hostname = hostname;
  latitude = latitude;
  longitude = one;
  machine = "mlab1";
  metro = "lga";
  project = "mlab-sandbox";
  probability = one;
  site = site;
  type = "virtual";
  uplink = "10g";
  services = ("ndt/ndt7", "wss://:443/ndt" ∷ []) ∷ [];
}

abbrev pub healthy : Registration → HeartbeatMessage
healthy r = record {
  health = some (record { score = one });
  registration = some r;
  prometheus = none;
}

abbrev pub far : HeartbeatMessage
far = healthy (registration "far" "lga01" one)

abbrev pub near : HeartbeatMessage
near = healthy (registration "near" "lga02" half)

abbrev pub two_instances : Map HeartbeatMessage
two_instances = ("far", far) ∷ ("near", near) ∷ []

abbrev pub virtual_only : NearestOptions
virtual_only = record { type = "virtual"; sites = none; country = ""; org = ""; strict = false }
