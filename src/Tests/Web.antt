-- ===== src/Tests/Web.antt =====
-- handler/handler.go on a request that two instances can serve.
use locate.Prelude.{
  Option, inl, true, ◌≡◌, ◌↔◌, refl, none, some, List, [], ◌∷◌, ◌==◌, ◌&&◌, if◌then◌else◌,
}
use locate.Prelude.Maps.{lookup, contains, keys}
use locate.Location.Types.{Target}
use locate.Handler.Urls.{Web, ParamOpts, extra_params, get, service_params, populate_urls}
use locate.Handler.Urls.Params.{Visits, passes, lookup-extra_params}
use locate.Handler.Urls.Tokens.{ArePopulated, populate_urls-ArePopulated}
use locate.Handler.Requests.{Request, Response, Service, options_of, nearest_handler}
use locate.Handler.Requests.Status.{IsWorking, IsAnswer, nearest_handler_total}
use locate.Handler.Requests.Served.{IsServed, nearest_handler-ok}
use locate.Api.{ApiError}
use locate.Url.{Url}
use locate.Handler.Requests.Options.{options_of-IsAsked}
use locate.Client.{NearestResult, Http, Client, client_nearest}
use locate.Client.Relay.{omit_empty, sent, IsRelayed, client_nearest-IsRelayed}
use locate.Handler.Monitoring.{monitoring}
use locate.Handler.Monitoring.Tokens.{IsAnswered, monitoring-IsAnswered}
use locate.Tests.Samples.{
  one, float_zero, plain_url, plain_runtime, plain_runtime-IsFair, two_instances,
}

-- Signs everything alike and draws 0.
abbrev web : Web
web = record {
  itoa = λ n. "n";
  url = plain_url;
  encode = λ v. "query";
  execute = λ hostname ports. hostname;
  sign = λ c. some c.subject;
  clock = λ i. 0;
  uuid = λ i. "id";
  order = λ ks. ks;
  chance = λ i key. float_zero;
}

web-Visits : Visits web.order
web-Visits = record { same = λ ks k. refl }

web-IsWorking : IsWorking web
web-IsWorking = record { visits = web-Visits; signs = λ c. (c.subject, refl) }

abbrev with_token : ParamOpts
with_token = record {
  raw = ("access_token", "forged" ∷ []) ∷ ("client_name", "me" ∷ []) ∷ [];
  version = "v2";
  ranks = ("a", 3) ∷ [];
  svc_params = service_params;
}

lookup-extra_params_example : lookup "client_name" (extra_params web "a" 0 with_token) ≡ (
    if contains (keys with_token.raw) "client_name" && passes web 0 with_token "client_name"
    then some (get "client_name" with_token.raw ∷ [])
    else none)
lookup-extra_params_example =
    lookup-extra_params web 0 with_token web-Visits "a" "client_name" (λ e. cc) (λ e. cc) (λ e. cc)

abbrev target : Target
target = record { machine = "a"; hostname = "a.example"; location = none; urls = [] }

populate_urls-ArePopulated_example :
    (targets' : List Target) × (populate_urls web
        (target ∷ [])
        (record { scheme = "wss"; host = ":443"; path = "/ndt"; raw_query = "" } ∷ [])
        "ndt"
        with_token
      ≡ some targets')
    × ArePopulated web
        (record { scheme = "wss"; host = ":443"; path = "/ndt"; raw_query = "" } ∷ [])
        "ndt"
        0
        (target ∷ [])
        targets'
unfolding lookup
populate_urls-ArePopulated_example =
    populate_urls-ArePopulated web
      (record { scheme = "wss"; host = ":443"; path = "/ndt"; raw_query = "" } ∷ []) "ndt"
      with_token web-Visits refl web-IsWorking.signs (target ∷ [])

abbrev service : Service
service = record {
  runtime = plain_runtime;
  web = web;
  locate = λ req. some (record { latitude = "1"; longitude = "1" });
  parse_float = λ s. some one;
  base = λ p. if p == "/v2/nearest/ndt" then "ndt" else "ndt7";
  dir = λ p. "/v2/nearest/ndt";
  limits = [];
}

abbrev request : Request
request = record {
  agent = "curl";
  app_engine_country = "US";
  path = "/v2/nearest/ndt/ndt7";
  query = ("machine-type", "virtual" ∷ []) ∷ [];
  form = [];
}

nearest_handler_total_example :
    (r : Response) × (nearest_handler service 0 request two_instances ≡ some r)
    × IsAnswer service plain_runtime-IsFair web-IsWorking request two_instances r
nearest_handler_total_example =
    nearest_handler_total service plain_runtime-IsFair web-IsWorking request two_instances 0

nearest_handler-ok_example :
    ((targets : List Target) × (nearest_handler service 0 request two_instances
        ≡ some (record { status = 200; error = none; results = targets })))
    ↔ IsServed service plain_runtime-IsFair web-IsWorking request two_instances
        (options_of request)
        0
unfolding options_of get lookup
nearest_handler-ok_example =
    nearest_handler-ok service plain_runtime-IsFair web-IsWorking request two_instances
      (options_of request) 0 (options_of-IsAsked request) (inl refl)

monitoring-IsAnswered_example :
    IsAnswered service web-IsWorking request.path with_token.raw
      (some "a.example")
      (monitoring service request.path with_token.raw (some "a.example"))
monitoring-IsAnswered_example =
    monitoring-IsAnswered service web-IsWorking request.path with_token.raw (some "a.example")

-- A body is the result itself.
abbrev marshal : Option ApiError → List Target → NearestResult
marshal e targets = record { error = e; results = omit_empty targets }

abbrev base_url : Url
base_url = record { scheme = "https"; host = "locate"; path = "/v2/nearest/"; raw_query = "" }

-- The handler is asked for whatever the client asks for, and answers.
abbrev http : Http NearestResult
http = record {
  join = λ a b. a;
  string = λ url. url.path;
  accepts = λ url. true;
  answer = λ r.
      sent
        (record {
          join = λ a b. a;
          string = λ url. url.path;
          accepts = λ url. true;
          answer = λ r. none;
          unmarshal = some;
        })
        marshal (λ e targets. refl) (nearest_handler service 0 request two_instances);
  unmarshal = some;
}

abbrev curl : Client
curl = record { user_agent = "curl"; base_url = base_url }

client_nearest-IsRelayed_example :
    (r : Response) × (nearest_handler service 0 request two_instances ≡ some r)
    × IsRelayed r (client_nearest http curl "ndt/ndt7")
client_nearest-IsRelayed_example =
    client_nearest-IsRelayed http marshal (λ e targets. refl) service plain_runtime-IsFair
      web-IsWorking request two_instances curl "ndt/ndt7" 0 (λ e. cc) refl refl
