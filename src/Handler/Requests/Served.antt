-- ===== src/Handler/Requests/Served.antt =====
-- Which requests get targets.
use mathlib.Core.Path.{subst}
use locate.Prelude.{
  ℕ, String, ◌≡◌, ◌≢◌, refl, sym, ap, ◌∙◌, ◌↔◌, ◌⊎◌, inl, inr, Bool, true, false, Option, none,
  some, List, [], ◌∷◌, eq_iff, arith, if◌then◌else◌, Result, ok, err,
}
use locate.Prelude.Maps.{Map}
use locate.Api.{HeartbeatMessage, ApiError}
use locate.Float.{Float64}
use locate.Location.Types.{Target, NearestOptions}
use locate.Handler.Requests.Options.{IsAsked, options_of_unique}
use locate.Location.Filter.{Entry, always_pick}
use locate.Location.Pick.{TargetInfo}
use locate.Location.Nearest.{NearestError, no_available_servers}
use locate.Location.Nearest.Laws.{IsFair, valid, nearest_total, nearest-unavailable}
use locate.Handler.Requests.{
  Place, Request, Response, Service, options_of, limit_request, failed, too_many_requests,
  client_not_found, client_not_parsed, machines_not_found, service_of, respond, respond_at,
  respond_to, nearest_handler,
}
use locate.Handler.Requests.Status.{IsWorking, located, able, respond-ok}

always_pick-asked :
    (o : NearestOptions)
    → (o.type ≡ "virtual")
      ⊎ ((site : String) × (sites : List String) × (o.sites ≡ some (site ∷ sites)))
      ⊎ (o.org ≢ "")
    → always_pick o ≡ true
unfolding always_pick
always_pick-asked o (inl e) = ground (arith, eq_iff o.type "virtual", e)
always_pick-asked o (inr (inl (site, sites, e))) = ground (arith, e)
always_pick-asked o (inr (inr given)) = ground (arith, eq_iff o.org "", given)

module _ (S : Service) (fair : IsFair S.runtime) (working : IsWorking S.web) (req : Request)
    (instances : Map HeartbeatMessage) where
  abbrev here_located : Float64 → Float64 → Option (Result NearestError TargetInfo)
  here_located = located S fair working req instances

  abbrev here_able : Float64 → Float64 → List Entry
  here_able = able S fair working req instances

  -- The client is at coordinates that parse, and some instance can serve it there, with these options.
  abbrev IsLocatedFor : NearestOptions → Place → Type 0
  IsLocatedFor o loc =
      (lat : Float64) × (S.parse_float loc.latitude ≡ some lat)
      × (lon : Float64) × (S.parse_float loc.longitude ≡ some lon)
      × (valid S.runtime fair (service_of S req.path) lat lon instances o ≢ [])

  abbrev IsLocated : Place → Type 0
  IsLocated = IsLocatedFor (options_of req)

  -- The request gets targets: it is not limited, the client is located, at coordinates that parse, and
  -- some instance can serve it there.
  abbrev pub IsServed : NearestOptions → ℕ → Type 0
  IsServed o now =
      (limit_request S.limits now req ≡ false)
      × (loc : Place) × (S.locate req ≡ some loc)
      × IsLocatedFor o loc

  abbrev IsOk : Option Response → Type 0
  IsOk o =
      (targets : List Target) × (o
        ≡ some (record { status = 200; error = none; results = targets }))

  IsOk-failed : (e : ApiError) → IsOk (failed e) → ⊥
  IsOk-failed e (targets, h) = cc h

  module _ (always : always_pick (options_of req) ≡ true) where
    respond-able :
        (lat lon : Float64) → IsOk (respond S req (here_located lat lon)) ↔ (here_able lat lon ≢ [])
    unfolding respond
    respond-able lat lon =
        let (r, e) =
          nearest_total S.runtime fair (service_of S req.path) lat lon instances (options_of req) in
        let unavailable =
          nearest-unavailable S.runtime fair (service_of S req.path) lat lon instances
            (options_of req) always in
        go r e unavailable
      where
        go :
            (r : Result NearestError TargetInfo)
            → here_located lat lon ≡ some r
            → (here_located lat lon ≡ some (err no_available_servers)) ↔ (here_able lat lon ≡ [])
            → IsOk (respond S req (here_located lat lon)) ↔ (here_able lat lon ≢ [])
        go (err no_available_servers) e unavailable = (
          λ (targets, h). absurd (IsOk-failed machines_not_found (targets, rw e at h)),
          λ some_able. absurd (some_able (unavailable.0 e)),
        )
        go (ok info) e unavailable = (
          λ h none_able. let h' = unavailable.1 none_able in cc (e, h'),
          λ some_able.
              let (targets, h, same) = respond-ok S fair working req instances info in
              (targets, rw e h),
        )

    respond_at-IsOk :
        (loc : Place) (lat lon : Option Float64)
        → S.parse_float loc.latitude ≡ lat
        → S.parse_float loc.longitude ≡ lon
        → IsOk (respond_at S req instances lat lon) ↔ IsLocated loc
    unfolding respond_at
    respond_at-IsOk loc none lon e e' =
        (λ h. absurd (IsOk-failed client_not_parsed h), λ (x, h, y, h', some_able). cc (e, h))
    respond_at-IsOk loc (some lat) none e e' =
        (λ h. absurd (IsOk-failed client_not_parsed h), λ (x, h, y, h', some_able). cc (e', h'))
    respond_at-IsOk loc (some lat) (some lon) e e' = (
      λ h. (lat, e, lon, e', (respond-able lat lon).0 h),
      λ (x, h, y, h', some_able).
          let same : lat ≡ x = cc (e, h) in
          let same' : lon ≡ y = cc (e', h') in
          (respond-able lat lon).1 (λ none_able.
            some_able
              (ap (λ v. here_able v y) (sym same) ∙ ap (here_able lat) (sym same') ∙ none_able)),
    )

    nearest_handler-IsServed :
        (now : ℕ) → IsOk (nearest_handler S now req instances) ↔ IsServed (options_of req) now
    unfolding nearest_handler respond_to
    nearest_handler-IsServed now = go (limit_request S.limits now req) (S.locate req) refl refl
      where
        go :
            (b : Bool) (o : Option Place)
            → limit_request S.limits now req ≡ b
            → S.locate req ≡ o
            → IsOk (if b then failed too_many_requests else respond_to S req instances o)
              ↔ IsServed (options_of req) now
        go true o e e' =
            (λ h. absurd (IsOk-failed too_many_requests h), λ (h, loc, h', rest). cc (e, h))
        go false none e e' =
            (λ h. absurd (IsOk-failed client_not_found h), λ (h, loc, h', rest). cc (e', h'))
        go false (some loc) e e' =
            let known =
              respond_at-IsOk loc (S.parse_float loc.latitude) (S.parse_float loc.longitude) refl
                refl in
            (
              λ h. (e, loc, e', known.0 h),
              λ (h, loc', h', rest).
                  let same : loc' ≡ loc = cc (e', h') in known.1 (subst IsLocated same rest),
            )

  -- For a request that asks for virtual machines, for sites or for an organization, so that no site is
  -- dropped at random, the status is 200 exactly when the agent is not limited, the client is located at
  -- coordinates that parse, and some instance can serve it there with the options that the request asks for:
  -- these have the country of the query where the request is strict, and else that of App Engine.
  pub nearest_handler-ok :
      (o : NearestOptions) (now : ℕ)
      → IsAsked req o
      → (o.type ≡ "virtual")
        ⊎ ((site : String) × (sites : List String) × (o.sites ≡ some (site ∷ sites)))
        ⊎ (o.org ≢ "")
      → ((targets : List Target) × (nearest_handler S now req instances
            ≡ some (record { status = 200; error = none; results = targets })))
        ↔ IsServed o now
  nearest_handler-ok o now asked picky =
      let same : options_of req ≡ o = options_of_unique req o asked in
      subst (λ o'. IsOk (nearest_handler S now req instances) ↔ IsServed o' now) same
        (nearest_handler-IsServed (ap always_pick same ∙ always_pick-asked o picky) now)
