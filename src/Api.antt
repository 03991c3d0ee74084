-- ===== src/Api.antt =====
-- api/v2/api.go: the messages of the heartbeat service. A pointer field is an `Option`: the code
-- stores pointers to fresh values and never writes through them.
pub mod Scanner
use locate.Prelude.{ℕ, String, Bool, Option, List}
use locate.Prelude.Maps.{Map}
use locate.Float.{Float64}

pub record Registration : Type 0 where
  pub city : String
  pub country_code : String
  pub continent_code : String
  pub experiment : String
  pub hostname : String
  pub latitude : Float64
  pub longitude : Float64
  pub machine : String
  pub metro : String
  pub project : String
  pub probability : Float64
  pub site : String
  pub type : String
  pub uplink : String
  pub services : Map (List String)

pub record Health : Type 0 where
  pub score : Float64

pub record Prometheus : Type 0 where
  pub health : Bool

pub record HeartbeatMessage : Type 0 where
  pub health : Option Health
  pub registration : Option Registration
  pub prometheus : Option Prometheus

-- `v2.Error`, without `Instance`, which nothing reads or fills
pub record ApiError : Type 0 where
  pub type : String
  pub title : String
  pub status : ℕ
  pub detail : String

-- `NewError`
abbrev pub new_error : String → String → ℕ → ApiError
new_error typ title status = record { type = typ; title = title; status = status; detail = "" }
