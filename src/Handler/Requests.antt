-- ===== src/Handler/Requests.antt =====
-- handler/handler.go: the handler `Nearest`, from the request to the response.
pub mod Options
pub mod Limited
pub mod Status
pub mod Served
use Prim.Native.String.{◌++◌}
use locate.Prelude.{
  ℕ, String, Bool, true, false, not, Option, none, some, List, [], ◌∷◌, if◌then◌else◌, ◌==◌, ◌||◌,
  ◌>>=◌, Result, ok, err,
}
use locate.Prelude.Maps.{Map, lookup}
use locate.Api.{HeartbeatMessage, ApiError, new_error}
use locate.Float.{Float64}
use locate.Limits.{Cron, is_limited}
use locate.Url.{Url}
use locate.Location.Types.{NearestOptions, Target}
use locate.Location.Pick.{TargetInfo}
use locate.Location.Nearest.{Runtime, NearestError, nearest}
use locate.Handler.Urls.{Values, Web, ParamOpts, get, service_params, populate_urls}

pub record Place : Type 0 where
  pub latitude : String
  pub longitude : String

-- A request as the handler reads it: the headers `User-Agent` and `X-AppEngine-Country`, the path, the
-- query and the form.
pub record Request : Type 0 where
  pub agent : String
  pub app_engine_country : String
  pub path : String
  pub query : Values
  pub form : Values

-- The status, and the `NearestResult` of the body.
pub record Response : Type 0 where
  pub status : ℕ
  pub error : Option ApiError
  pub results : List Target

-- What the handler takes from elsewhere: the client locator, `strconv.ParseFloat` with `none` for an
-- error, and `path.Base` and `path.Dir`.
pub record Service : Type 1 where
  pub runtime : Runtime
  pub web : Web
  pub locate : Request → Option Place
  pub parse_float : String → Option Float64
  pub base : String → String
  pub dir : String → String
  pub limits : Map Cron

-- `strconv.ParseBool`
unfoldable pub parse_bool : String → Option Bool
parse_bool s =
    if s == "1" || s == "t" || s == "T" || s == "TRUE" || s == "true" || s == "True"
    then some true
    else (if s == "0" || s == "f" || s == "F" || s == "FALSE" || s == "false" || s == "False"
        then some false
        else none)

abbrev pub or_false : Option Bool → Bool
or_false none = false
or_false (some b) = b

abbrev or_no_urls : Option (List Url) → List Url
or_no_urls none = []
or_no_urls (some urls) = urls

-- The options that the query and the headers give.
unfoldable pub options_of : Request → NearestOptions
unfolding parse_bool
options_of req =
    let strict = or_false (parse_bool (get "strict" req.query)) in
    record {
      type = get "machine-type" req.query;
      country = if strict then get "country" req.query else req.app_engine_country;
      sites = lookup "site" req.query;
      org = get "org" req.query;
      strict = strict;
    }

abbrev pub limited_by : Option Cron → ℕ → Bool
limited_by none now = false
limited_by (some l) now = is_limited l now

unfoldable pub limit_request : Map Cron → ℕ → Request → Bool
limit_request limits now req = limited_by (lookup req.agent limits) now

-- the four errors of `Nearest`
abbrev pub too_many_requests : ApiError
too_many_requests =
    new_error "client" "Too many periodic requests. Please contact support@measurementlab.net." 429

abbrev pub client_not_found : ApiError
client_not_found = new_error "nearest" "Failed to lookup nearest machines" 503

abbrev pub client_not_parsed : ApiError
client_not_parsed = new_error "client" "Failed to look up client location" 500

abbrev pub machines_not_found : ApiError
machines_not_found = new_error "nearest" "Failed to lookup nearest machines" 500

abbrev pub failed : ApiError → Option Response
failed e = some (record { status = e.status; error = some e; results = [] })

module _ (S : Service) where
  unfoldable pub experiment_of : String → String
  experiment_of p = S.base (S.dir p)

  unfoldable pub service_of : String → String
  unfolding experiment_of
  service_of p = experiment_of p ++ "/" ++ S.base p

  -- the rest of the handler, after `Nearest` of the locator; the outer `none` is a panic
  unfoldable pub respond : Request → Option (Result NearestError TargetInfo) → Option Response
  respond req none = none
  respond req (some (err e)) = failed machines_not_found
  respond req (some (ok info)) = do
    targets ←
        populate_urls S.web info.targets (or_no_urls info.urls) (experiment_of req.path) (record {
          raw = req.form;
          version = "v2";
          ranks = info.ranks;
          svc_params = service_params;
        })
    some (record { status = 200; error = none; results = targets })

  -- after the look-up of the client
  unfoldable pub respond_at :
      Request → Map HeartbeatMessage → Option Float64 → Option Float64 → Option Response
  unfolding respond options_of service_of
  respond_at req instances (some lat) (some lon) =
      respond req (nearest S.runtime (service_of req.path) lat lon instances (options_of req))
  respond_at req instances _ _ = failed client_not_parsed

  unfoldable pub respond_to : Request → Map HeartbeatMessage → Option Place → Option Response
  unfolding respond_at
  respond_to req instances none = failed client_not_found
  respond_to req instances (some loc) =
      respond_at req instances (S.parse_float loc.latitude) (S.parse_float loc.longitude)

  -- the handler `Nearest` at the time `now`
  unfoldable pub nearest_handler : ℕ → Request → Map HeartbeatMessage → Option Response
  unfolding respond_to limit_request
  nearest_handler now req instances =
      if limit_request S.limits now req
      then failed too_many_requests
      else respond_to req instances (S.locate req)
