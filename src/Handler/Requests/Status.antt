-- ===== src/Handler/Requests/Status.antt =====
-- What the handler answers, in all cases.
use locate.Prelude.{
  ℕ, suc, ◌≤◌, String, ◌≡◌, refl, ap, ◌⊎◌, inl, inr, Bool, true, false, Option, none, some, List,
  [], ◌∷◌, arith, length, if◌then◌else◌, Result, ok, err,
}
use locate.Prelude.Maps.{Map, lookup}
use locate.Api.{HeartbeatMessage, ApiError}
use locate.Float.{Float64}
use locate.Url.{Url}
use locate.Location.Types.{Target}
use locate.Location.Filter.{Entry}
use locate.Location.Pick.{TargetInfo}
use locate.Location.Nearest.{NearestError, nearest}
use locate.Location.Nearest.Laws.{IsFair, valid, nearest_total, nearest-ok}
use locate.Handler.Urls.{Claims, Web, service_params}
use locate.Handler.Urls.Params.{Visits}
use locate.Handler.Urls.Tokens.{ArePopulated, populate_urls-ArePopulated}
use locate.Handler.Requests.{
  Place, Request, Response, Service, options_of, limit_request, failed, too_many_requests,
  client_not_found, client_not_parsed, machines_not_found, or_no_urls, experiment_of, service_of,
  respond, respond_at, respond_to, nearest_handler,
}

length-ArePopulated :
    (W : Web) (ports : List Url) (exp : String) (i : ℕ) (ts ts' : List Target)
    → ArePopulated W ports exp i ts ts'
    → length ts' ≡ length ts
length-ArePopulated W ports exp i [] [] h = refl
length-ArePopulated W ports exp i [] (t' ∷ ts') h = elim h [ ]
length-ArePopulated W ports exp i (t ∷ ts) [] h = elim h [ ]
length-ArePopulated W ports exp i (t ∷ ts) (t' ∷ ts') (h, hs) =
    ap suc (length-ArePopulated W ports exp (suc i) ts ts' hs)

lookup-service_params : lookup "access_token" service_params ≡ none
unfolding lookup
lookup-service_params = refl

-- Signing works, and `range` visits every key.
pub record IsWorking (W : Web) : Type 0 where
  pub visits : Visits W.order
  pub signs : (c : Claims) → (token : String) × (W.sign c ≡ some token)

module _ (S : Service) (fair : IsFair S.runtime) (working : IsWorking S.web) (req : Request)
    (instances : Map HeartbeatMessage) where
  -- One of the errors of `Nearest`.
  abbrev pub IsFailure : ApiError → Type 0
  IsFailure e =
      (e ≡ too_many_requests)
      ⊎ (e ≡ client_not_found)
      ⊎ (e ≡ client_not_parsed)
      ⊎ (e ≡ machines_not_found)

  -- Either targets, one to four, or an error and none.
  abbrev pub IsAnswer : Response → Type 0
  IsAnswer r =
      ((r.status ≡ 200) × (r.error ≡ none) × (1 ≤ length r.results) × (length r.results ≤ 4))
      ⊎ ((e : ApiError) × IsFailure e
          × (r.status ≡ e.status)
          × (r.error ≡ some e)
          × (r.results ≡ []))

  Answered : Option Response → Type 0
  Answered o = (r : Response) × (o ≡ some r) × IsAnswer r

  abbrev pub located : Float64 → Float64 → Option (Result NearestError TargetInfo)
  located lat lon = nearest S.runtime (service_of S req.path) lat lon instances (options_of req)

  abbrev pub able : Float64 → Float64 → List Entry
  able lat lon = valid S.runtime fair (service_of S req.path) lat lon instances (options_of req)

  pub respond-ok :
      (info : TargetInfo)
      → (targets : List Target) × (respond S req (some (ok info))
          ≡ some (record { status = 200; error = none; results = targets }))
        × (length targets ≡ length info.targets)
  unfolding respond
  respond-ok info =
      let (targets, e, all) =
        populate_urls-ArePopulated S.web (or_no_urls info.urls) (experiment_of S req.path)
          (record {
            raw = req.form;
            version = "v2";
            ranks = info.ranks;
            svc_params = service_params;
          })
          working.visits lookup-service_params working.signs info.targets in
      (targets, rw e refl, length-ArePopulated S.web _ _ 0 info.targets targets all)

  Answered-failed : (e : ApiError) → IsFailure e → Answered (failed e)
  unfolding Answered
  Answered-failed e h = (_, refl, inr (e, h, refl, refl, refl))

  respond-Answered :
      (lat lon : Float64) (r : Result NearestError TargetInfo)
      → located lat lon ≡ some r
      → Answered (respond S req (some r))
  unfolding Answered respond
  respond-Answered lat lon (err e) h = Answered-failed machines_not_found (inr (inr (inr refl)))
  respond-Answered lat lon (ok info) h =
      let (targets, e, same) = respond-ok info in
      let (low, high, served) =
        nearest-ok S.runtime fair (service_of S req.path) lat lon instances (options_of req) info
          h in
      (
        record { status = 200; error = none; results = targets },
        e,
        inl (refl, refl, omega (arith, same), omega (arith, same)),
      )

  respond_at-Answered : (lat lon : Option Float64) → Answered (respond_at S req instances lat lon)
  unfolding respond_at
  respond_at-Answered none lon = Answered-failed client_not_parsed (inr (inr (inl refl)))
  respond_at-Answered (some lat) none = Answered-failed client_not_parsed (inr (inr (inl refl)))
  respond_at-Answered (some lat) (some lon) =
      let (r, e) =
        nearest_total S.runtime fair (service_of S req.path) lat lon instances (options_of req) in
      rw e (respond-Answered lat lon r e)

  respond_to-Answered : (loc : Option Place) → Answered (respond_to S req instances loc)
  unfolding respond_to
  respond_to-Answered none = Answered-failed client_not_found (inr (inl refl))
  respond_to-Answered (some loc) =
      respond_at-Answered (S.parse_float loc.latitude) (S.parse_float loc.longitude)

  -- Where signing works, the handler answers every request: with one to four targets, the status
  -- 200 and no error, or with one of its four errors, the status of that error, and no targets.
  pub nearest_handler_total :
      (now : ℕ) → (r : Response) × (nearest_handler S now req instances ≡ some r) × IsAnswer r
  unfolding nearest_handler Answered
  nearest_handler_total now = go (limit_request S.limits now req)
    where
      go :
          (b : Bool)
          → Answered
              (if b then failed too_many_requests else respond_to S req instances (S.locate req))
      go true = Answered-failed too_many_requests (inl refl)
      go false = respond_to-Answered (S.locate req)
