-- ===== src/Location/Types.antt =====
-- The data of heartbeat/location.go.
use locate.Prelude.{ℕ, String, Bool, Option, List}
use locate.Prelude.Maps.{Map}
use locate.Api.{Registration, Health}
use locate.Float.{Float64}

pub record NearestOptions : Type 0 where
  pub type : String
  pub sites : Option (List String)  -- `none` is the nil slice
  pub country : String
  pub org : String
  pub strict : Bool

pub record Machine : Type 0 where
  pub name : String
  pub host : String
  pub health : Health

pub record Site : Type 0 where
  pub distance : Float64
  pub rank : ℕ
  pub metro_rank : ℕ
  pub registration : Registration
  pub machines : List Machine

pub record TargetLocation : Type 0 where
  pub city : String
  pub country : String

-- `v2.Target`, before its URLs are filled in
pub record Target : Type 0 where
  pub machine : String
  pub hostname : String
  pub location : Option TargetLocation
  pub urls : Map String

-- The name of the site, which blanking the host name and the machine leaves alone.
abbrev pub site_name : Site → String
site_name s = s.registration.site
