-- ===== src/Handler/Monitoring.antt =====
-- handler/monitoring.go: URLs for a monitoring client that holds a token for a machine.
pub mod Tokens
use Prim.Native.String.{◌++◌}
use locate.Api.{ApiError, new_error}
use locate.Prelude.{ℕ, String, Option, none, some, List, [], ◌∷◌, ◌>>=◌}
use locate.Prelude.Maps.{Map, lookup, erase}
use locate.Host.{HostPackage}
use locate.Url.{Url}
use locate.Location.Types.{Target}
use locate.Handler.Urls.{Values, Web, get_access_token, get_urls}
use locate.Handler.Requests.{Service, experiment_of, service_of}

abbrev url_at : String → String → String → Url
url_at scheme port path = record { scheme = scheme; host = port; path = path; raw_query = "" }

-- `static.Configs`
abbrev pub configs : Map (List Url)
configs =
    (
      "ndt/ndt7",
      url_at "ws" "" "/ndt/v7/upload"
          ∷ url_at "ws" "" "/ndt/v7/download"
          ∷ url_at "wss" "" "/ndt/v7/upload"
          ∷ url_at "wss" "" "/ndt/v7/download"
          ∷ [],
    )
    ∷ ("ndt/ndt5", url_at "ws" ":3001" "/ndt_protocol" ∷ url_at "wss" ":3010" "/ndt_protocol" ∷ [])
    ∷ ("neubot/dash", url_at "https" "" "/negotiate/dash" ∷ [])
    ∷ ("wehe/replay", url_at "wss" ":4443" "/v0/envelope/access" ∷ [])
    ∷ ("iperf3/test", url_at "wss" "" "/v0/envelope/access" ∷ [])
    ∷ []

-- The status of the answer, and the `v2.MonitoringResult` of its body.
pub record MonitoringResult : Type 0 where
  pub status : ℕ
  pub error : Option ApiError
  pub access_token : String
  pub target : Option Target
  pub results : List Target

-- the three errors of `Monitoring`
abbrev pub no_claim : ApiError
no_claim = new_error "claim" "Must provide access_token" 400

abbrev pub no_subject : ApiError
no_subject = new_error "subject" "Subject must be specified" 400

abbrev pub unknown_service : String → ApiError
unknown_service service = new_error "config" ("Unknown service: " ++ service) 400

abbrev pub refused_with : ApiError → Option MonitoringResult
refused_with e =
    some
      (record { status = e.status; error = some e; access_token = ""; target = none; results = [] })

module _ (S : Service) (path : String) (query : Values) where
  open S.runtime.host use {Name, parse, string_with_service, set_service}

  -- the last part of the handler; `none` is the panic where signing fails
  unfoldable pub issue : String → Name → List Url → Option MonitoringResult
  issue subject m ports = do
    token ← get_access_token S.web 0 subject "monitoring"
    let hostname = string_with_service (set_service (experiment_of S path) m)
    let found : Target = record {
      machine = subject;
      hostname = hostname;
      location = none;
      urls = get_urls S.web ports hostname token (erase "access_token" query);
    }
    some (record {
      status = 200;
      error = none;
      access_token = token;
      target = some found;
      results = found ∷ [];
    })

  unfoldable pub issue_for : String → Name → Option (List Url) → Option MonitoringResult
  unfolding issue
  issue_for subject m none = refused_with (unknown_service (service_of S path))
  issue_for subject m (some ports) = issue subject m ports

  unfoldable pub check_subject : String → Option Name → Option MonitoringResult
  unfolding issue_for
  check_subject subject none = refused_with no_subject
  check_subject subject (some m) = issue_for subject m (lookup (service_of S path) configs)

  -- The handler `Monitoring`, with the subject of the claim that the request's token carries.
  unfoldable pub monitoring : Option String → Option MonitoringResult
  unfolding check_subject
  monitoring none = refused_with no_claim
  monitoring (some subject) = check_subject subject (parse subject)
