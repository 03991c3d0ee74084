-- ===== src/Handler/Monitoring/Tokens.antt =====
-- The URLs for monitoring carry the new token.
use Prim.Native.String.{◌++◌}
use locate.Api.{ApiError, new_error}
use locate.Prelude.{String, ◌≡◌, ◌≢◌, refl, ◌∙◌, Option, none, some, List, [], ◌∷◌, arith, eq_iff}
use locate.Prelude.Maps.{lookup, erase, lookup-erase, contains-keys-none}
use locate.Url.{Url}
use locate.Location.Types.{Target}
use locate.Handler.Urls.{Values, claims_for, get_access_token, params_for, url_for, get_urls}
use locate.Handler.Urls.Params.{lookup-params_for, lookup-params_for_extra}
use locate.Handler.Urls.Tokens.{map_url, last_port, lookup-get_urls}
use locate.Handler.Requests.{Service, experiment_of, service_of}
use locate.Handler.Requests.Status.{IsWorking}
use locate.Handler.Monitoring.{
  configs, MonitoringResult, refused_with, issue, issue_for, check_subject, monitoring,
}

module _ (S : Service) (working : IsWorking S.web) (path : String) (query : Values) where
  open S.runtime.host use {Name, parse, string_with_service, set_service}

  abbrev experiment : String
  experiment = S.base (S.dir path)

  abbrev service : String
  service = experiment ++ "/" ++ S.base path

  -- The answer is for this machine, under the host name that it has with the experiment, and each of its URLs carries the token that was signed for it, and
  -- the other parameters of the request that have one value.
  pub record IsIssued (subject : String) (m : Name) (ports : List Url) (r : MonitoringResult)
      : Type 0 where
    pub status : r.status ≡ 200
    pub error : r.error ≡ none
    pub signed : S.web.sign (claims_for S.web 0 subject "monitoring") ≡ some r.access_token
    pub target : Target
    pub targeted : r.target ≡ some target
    pub results : r.results ≡ target ∷ []
    pub machine : target.machine ≡ subject
    pub hostname : target.hostname ≡ string_with_service (set_service experiment m)
    pub params : Values
    pub authorized : lookup "access_token" params ≡ some (r.access_token ∷ [])
    pub preserved :
        (j v : String)
        → j ≢ "access_token"
        → lookup j query ≡ some (v ∷ [])
        → lookup j params ≡ some (v ∷ [])
    pub complete :
        (name : String)
        → lookup name target.urls
          ≡ map_url
              (λ port. S.web.url.string (record port {
                raw_query = S.web.encode params;
                host = S.web.execute target.hostname port.host;
              }))
              (last_port S.web name ports)

  -- The error alone, with the status 400.
  pub record IsRefused (kind reason : String) (r : MonitoringResult) : Type 0 where
    pub status : r.status ≡ 400
    pub access_token : r.access_token ≡ ""
    pub target : r.target ≡ none
    pub results : r.results ≡ []
    pub error : ApiError
    pub failed : r.error ≡ some error
    pub type : error.type ≡ kind
    pub title : error.title ≡ reason
    pub error_status : error.status ≡ 400

  -- The answer to a claim, with the subject that it names, and to the lack of one.
  pub data IsAnsweredBy : Option String → MonitoringResult → Type 0 where
    no_claim :
        {r : MonitoringResult}
        → IsRefused "claim" "Must provide access_token" r
        → IsAnsweredBy none r
    no_subject :
        {subject : String} {r : MonitoringResult}
        → parse subject ≡ none
        → IsRefused "subject" "Subject must be specified" r
        → IsAnsweredBy (some subject) r
    no_service :
        {subject : String} {m : Name} {r : MonitoringResult}
        → parse subject ≡ some m
        → lookup service configs ≡ none
        → IsRefused "config" ("Unknown service: " ++ service) r
        → IsAnsweredBy (some subject) r
    issued :
        {subject : String} {m : Name} {ports : List Url} {r : MonitoringResult}
        → parse subject ≡ some m
        → lookup service configs ≡ some ports
        → IsIssued subject m ports r
        → IsAnsweredBy (some subject) r

  abbrev pub IsAnswered : Option String → Option MonitoringResult → Type 0
  IsAnswered claim o = (r : MonitoringResult) × (o ≡ some r) × IsAnsweredBy claim r

  new_error-IsRefused :
      (kind reason : String)
      → (r : MonitoringResult) × (refused_with (new_error kind reason 400) ≡ some r)
        × IsRefused kind reason r
  new_error-IsRefused kind reason = (
    _,
    refl,
    record {
      status = refl;
      access_token = refl;
      target = refl;
      results = refl;
      error = new_error kind reason 400;
      failed = refl;
      type = refl;
      title = refl;
      error_status = refl;
    },
  )

  abbrev kept : Values
  kept = erase "access_token" query

  abbrev target_for : String → String → Name → List Url → Target
  target_for token subject m ports =
      let hostname =
        S.runtime.host.string_with_service (S.runtime.host.set_service (experiment_of S path) m) in
      record {
        machine = subject;
        hostname = hostname;
        location = none;
        urls = get_urls S.web ports hostname token kept;
      }

  abbrev answer : String → String → Name → List Url → MonitoringResult
  answer token subject m ports = record {
    status = 200;
    error = none;
    access_token = token;
    target = some (target_for token subject m ports);
    results = target_for token subject m ports ∷ [];
  }

  lookup-kept : lookup "access_token" kept ≡ none
  lookup-kept = lookup-erase "access_token" "access_token" query

  answer-IsIssued :
      (token subject : String) (m : Name) (ports : List Url)
      → S.web.sign (claims_for S.web 0 subject "monitoring") ≡ some token
      → IsIssued subject m ports (answer token subject m ports)
  unfolding url_for experiment_of
  answer-IsIssued token subject m ports signed = record {
    status = refl;
    error = refl;
    results = refl;
    hostname = refl;
    signed = signed;
    target = target_for token subject m ports;
    targeted = refl;
    machine = refl;
    params = params_for S.web token kept;
    authorized =
        lookup-params_for S.web working.visits token kept "access_token"
        ∙ ground (arith, contains-keys-none "access_token" kept lookup-kept);
    preserved = λ j v other e.
        lookup-params_for_extra S.web working.visits token kept j v
          (ground (arith, lookup-erase "access_token" j query, eq_iff "access_token" j, other, e));
    complete =
        lookup-get_urls S.web ports
          (S.runtime.host.string_with_service (S.runtime.host.set_service (experiment_of S path) m))
          token kept;
  }

  issue-IsIssued :
      (subject : String) (m : Name) (ports : List Url)
      → (r : MonitoringResult) × (issue S path query subject m ports ≡ some r)
        × IsIssued subject m ports r
  unfolding issue get_access_token
  issue-IsIssued subject m ports =
      let (token, signed) = working.signs (claims_for S.web 0 subject "monitoring") in
      (answer token subject m ports, rw signed refl, answer-IsIssued token subject m ports signed)

  -- Where signing works, the handler refuses the request with the status 400 and an error of its own, for
  -- want of a claim, of a host name as its subject, or of a known service; or it answers it with one target,
  -- for the machine that the claim names, whose host name has the experiment of the path: each URL then
  -- carries the token that was signed for this machine and for monitoring, never one of the request, and
  -- keeps the other parameters that have one value.
  pub monitoring-IsAnswered :
      (claim : Option String) → IsAnswered claim (monitoring S path query claim)
  unfolding monitoring issue_for check_subject service_of experiment_of
  monitoring-IsAnswered none =
      let (r, e, refused) = new_error-IsRefused "claim" "Must provide access_token" in
      (r, e, IsAnsweredBy.no_claim refused)
  monitoring-IsAnswered (some subject) = go (parse subject) refl
    where
      served :
          (m : Name)
          → parse subject ≡ some m
          → (o : Option (List Url)) → lookup service configs ≡ o
          → IsAnswered (some subject) (issue_for S path query subject m o)
      served m named none e =
          let (r, e', refused) = new_error-IsRefused "config" ("Unknown service: " ++ service) in
          (r, e', IsAnsweredBy.no_service named e refused)
      served m named (some ports) e =
          let (r, h, good) = issue-IsIssued subject m ports in
          (r, h, IsAnsweredBy.issued named e good)

      go :
          (n : Option Name)
          → parse subject ≡ n
          → IsAnswered (some subject) (check_subject S path query subject n)
      go none e =
          let (r, e', refused) = new_error-IsRefused "subject" "Subject must be specified" in
          (r, e', IsAnsweredBy.no_subject e refused)
      go (some m) e = served m e (lookup service configs) refl
