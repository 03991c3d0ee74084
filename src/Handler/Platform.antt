-- ===== src/Handler/Platform.antt =====
-- handler/handler.go: the handlers `Live`, `Ready` and `Registrations`.
use locate.Prelude.{
  ℕ, String, ◌≡◌, refl, ap, ◌⊎◌, inl, inr, true, none, if◌then◌else◌, Result, ok, err,
}
use locate.Prelude.Maps.{Map, keys, contains}
use locate.Prelude.Keyed.{DistinctKeys}
use locate.Api.{HeartbeatMessage, ApiError, new_error}
use locate.Host.{HostPackage}
use locate.Tracker.{StoreClient, Tracker, ready}
use locate.Siteinfo.{machines}
use locate.Siteinfo.Selection.{Outcome, machines-wanted}
use locate.Handler.Urls.{Values, get}

-- `Live`: the status and the body
abbrev live_handler : ℕ × String
live_handler = (200, "ok")

-- `Ready` at the time `now`
unfoldable pub ready_handler : {C : StoreClient} → ℕ → Tracker C → ℕ × String
ready_handler {C} now t = if ready C now t then (200, "ok") else (500, "not ready")

-- `error_text` is the text of the error of `host.Parse` on a host name.
module _ (H : HostPackage) (error_text : String → String) where
  unfoldable pub registrations_answer :
      Result String (Map HeartbeatMessage) → ℕ × Result ApiError (Map HeartbeatMessage)
  registrations_answer (err k) = (500, err (new_error "siteinfo" (error_text k) 500))
  registrations_answer (ok found) = (200, ok found)

  -- `Registrations`, whose parameter `format` has one format: the status and the body
  unfoldable pub registrations_handler :
      {C : StoreClient} → Values → Tracker C → ℕ × Result ApiError (Map HeartbeatMessage)
  unfolding registrations_answer
  registrations_handler q t =
      registrations_answer (machines H (get "org" q) (get "exp" q) t.instances)

  -- `Registrations` answers with the status 500 and the error of a host name that is registered and does
  -- not parse, or with the status 200 and exactly those instances of the tracker that are of the
  -- organisation and of the experiment that the parameters name, where they name one. The keys of a map
  -- are distinct.
  pub registrations_handler-wanted :
      {C : StoreClient} (q : Values) (t : Tracker C)
      → DistinctKeys t.instances
      → ((k : String) × (registrations_handler q t
            ≡ (500, err (new_error "siteinfo" (error_text k) 500)))
          × (contains (keys t.instances) k ≡ true)
          × (H.parse k ≡ none))
        ⊎ ((found : Map HeartbeatMessage) × (registrations_handler q t ≡ (200, ok found))
            × Outcome H (get "org" q) (get "exp" q) t.instances (ok found))
  unfolding registrations_handler registrations_answer
  registrations_handler-wanted q t distinct =
      go (machines H (get "org" q) (get "exp" q) t.instances)
        (machines-wanted H (get "org" q) (get "exp" q) t.instances distinct)
    where
      go :
          (r : Result String (Map HeartbeatMessage))
          → Outcome H (get "org" q) (get "exp" q) t.instances r
          → ((k : String) × (registrations_answer r
                ≡ (500, err (new_error "siteinfo" (error_text k) 500)))
              × (contains (keys t.instances) k ≡ true)
              × (H.parse k ≡ none))
            ⊎ ((found : Map HeartbeatMessage) × (registrations_answer r ≡ (200, ok found))
                × Outcome H (get "org" q) (get "exp" q) t.instances (ok found))
      go r (inl (k, e, known, unparsed)) = inl (k, ap registrations_answer e, known, unparsed)
      go r (inr (found, e, wanted_)) =
          inr (found, ap registrations_answer e, inr (found, refl, wanted_))
