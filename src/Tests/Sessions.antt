-- ===== src/Tests/Sessions.antt =====
-- handler/heartbeat.go and limits/cron.go on short runs.
use mathlib.Core.Option.{some-injective}
use mathlib.Core.Path.{subst}
use locate.Prelude.{
  ◌&&◌, Option, String, List, ap, ℕ, ◌≤◌, ◌<◌, ◌≡◌, ◌↔◌, refl, ◌⊎◌, inl, inr, Bool, true, false,
  ltb, some, none, [], ◌∷◌, arith,
}
use locate.Prelude.Maps.{Map, lookup, insert}
use locate.Limits.{Cron, IsNext}
use locate.Limits.Config.{AgentConfig, decoded, parse_config, add_limits, new_cron, last_entry}
use locate.Handler.Requests.{Request, limit_request}
use locate.Handler.Requests.Limited.{InWindow, limit_request-InWindow}
use locate.Handler.Signals.{vector}
use locate.Handler.Heartbeats.{
  Event, message, read_error, Surroundings, Session, handle_heartbeats, new_session,
}
use locate.Handler.Heartbeats.Isolation.{handle_heartbeats-elsewhere}
use locate.Tests.Samples.{half, plain_host, registration}
use locate.Tests.Stores.{forgetful, two_tracked}

abbrev surroundings : Surroundings
surroundings = record { host = plain_host; order = λ l. l; ask = λ q. vector []; quote = λ s. s }

abbrev joins : Event
joins = message (record {
  health = none;
  registration = some (registration "new" "lga03" half);
  prometheus = none;
})

abbrev beats : Event
beats =
    message
      (record { health = some (record { score = half }); registration = none; prometheus = none })

abbrev near_session : Session forgetful
near_session = record (new_session two_tracked) { hostname = "near" }

handle_heartbeats-elsewhere_example :
    lookup "far"
      (handle_heartbeats surroundings (beats ∷ read_error ∷ []) near_session).0.tracker.instances
    ≡ lookup "far" two_tracked.instances
unfolding new_session
handle_heartbeats-elsewhere_example =
    handle_heartbeats-elsewhere surroundings (beats ∷ read_error ∷ []) near_session "far"
      (refl, (tt, tt)) (λ e. cc)

abbrev next_of : Bool → ℕ
next_of true = 10
next_of false = 0

-- A window of 3 at the time 10 alone.
abbrev once : Cron
once = record { next = λ t. next_of (ltb 0 t && ltb t 10); duration = 3 }

once-IsNext : IsNext (λ s. s ≡ 10) once.next
once-IsNext = record { from_zero = refl; first = λ t p. go t (ltb 0 t && ltb t 10) refl p }
  where
    go :
        (t : ℕ) (b : Bool)
        → (ltb 0 t && ltb t 10) ≡ b
        → 0 < t
        → (((next_of b) ≡ 0) × ((s : ℕ) → s ≡ 10 → s ≤ t))
          ⊎ (((next_of b) ≡ 10) × (t < (next_of b)) × ((s : ℕ) → s ≡ 10 → t < s → (next_of b) ≤ s))
    go t true e p = inr (refl, ground arith, λ s h l. omega arith)
    go t false e p = inl (refl, λ s h. ground arith)

-- Every schedule is that one.
abbrev must_parse : String → Option (ℕ → ℕ)
must_parse schedule = some once.next

abbrev config : List AgentConfig
config =
    record { agent = "bot"; schedule = "@hourly"; duration = 1 }
    ∷ record { agent = "bot"; schedule = "@daily"; duration = 3 }
    ∷ []

abbrev daily : Map Cron
daily = ("bot", record once { duration = 3 }) ∷ []

daily_lem : parse_config must_parse (decoded config true) ≡ some (daily, true)
unfolding parse_config add_limits new_cron insert
daily_lem = refl

abbrev bot_request : Request
bot_request = record { agent = "bot"; app_engine_country = ""; path = "/"; query = []; form = [] }

last_lem : (l : AgentConfig) → last_entry "bot" config ≡ some l → l.duration < 11
unfolding last_entry
last_lem l e =
    let same : ◌≡◌ {A = AgentConfig} (record { agent = "bot"; schedule = "@daily"; duration = 3 })
        l =
      some-injective _ _ e in
    let same' : 3 ≡ l.duration = ap AgentConfig.duration same in omega (arith, same')

limit_request-InWindow_example :
    (limit_request daily 11 bot_request ≡ true)
    ↔ InWindow must_parse
        (λ schedule s. s ≡ 10)
        (λ schedule next e. subst (IsNext (λ s. s ≡ 10)) (some-injective _ _ e) once-IsNext)
        config
        "bot"
        11
limit_request-InWindow_example =
    limit_request-InWindow must_parse (λ schedule s. s ≡ 10)
      (λ schedule next e. subst (IsNext (λ s. s ≡ 10)) (some-injective _ _ e) once-IsNext) config
      true daily bot_request 11 daily_lem last_lem
