-- ===== src/Handler/Requests/Limited.antt =====
-- Which requests are limited by a configuration.
use mathlib.Core.Option.{some-injective}
use mathlib.Core.Path.{subst}
use locate.Prelude.{
  ℕ, ◌+◌, ◌≤◌, ◌<◌, String, ◌≡◌, refl, sym, ap, ◌∙◌, ◌↔◌, Bool, true, false, Option, none, some,
  List, ◌>>=◌, >>=-eq-some,
}
use locate.Prelude.Maps.{Map, lookup}
use locate.Limits.{Cron, is_limited, IsNext, is_limited_iff}
use locate.Limits.Config.{
  AgentConfig, decoded, new_cron, parse_config, last_entry, cron_of, lookup-parse_config,
  parse_config-parsed,
}
use locate.Handler.Requests.{Request, limit_request}

module _ (must_parse : String → Option (ℕ → ℕ)) (Scheduled : String → ℕ → Type 0)
    (parses : (schedule : String) (next : ℕ → ℕ)
      → must_parse schedule ≡ some next
      → IsNext (Scheduled schedule) next) where
  abbrev WindowOf : ℕ → AgentConfig → Type 0
  WindowOf now l = (s : ℕ) × Scheduled l.schedule s × (s ≤ now) × (now < s + l.duration)

  -- The last entry of the agent is the given one, and the time is in one of its windows.
  abbrev pub InWindow : List AgentConfig → String → ℕ → Type 0
  InWindow config agent now =
      (l : AgentConfig) × (last_entry agent config ≡ some l)
      × (s : ℕ) × Scheduled l.schedule s
      × (s ≤ now)
      × (now < s + l.duration)

  -- A request is limited exactly when the last entry for its user agent in the configuration file has a
  -- window that the time is in: from a scheduled time on, its start included, for the duration, its end not
  -- included. The duration of that entry is shorter than the time since Go's zero time.
  pub limit_request-InWindow :
      (config : List AgentConfig) (fine : Bool) (limits : Map Cron) (req : Request) (now : ℕ)
      → parse_config must_parse (decoded config fine) ≡ some (limits, fine)
      → ((l : AgentConfig) → last_entry req.agent config ≡ some l → l.duration < now)
      → (limit_request limits now req ≡ true) ↔ InWindow config req.agent now
  unfolding limit_request new_cron
  limit_request-InWindow config fine limits req now e late = go (last_entry req.agent config) refl
    where
      found :
          (o : Option AgentConfig)
          → last_entry req.agent config ≡ o
          → lookup req.agent limits ≡ cron_of must_parse o none
      found o h =
          lookup-parse_config must_parse config fine limits req.agent e
          ∙ ap (λ x. cron_of must_parse x none) h

      go :
          (o : Option AgentConfig)
          → last_entry req.agent config ≡ o
          → (limit_request limits now req ≡ true) ↔ InWindow config req.agent now
      go none h =
          let unlimited = found none h in
          (
            (λ x. let y : false ≡ true = rw unlimited at x in cc),
            λ w. let known = w.1 in cc (h, known),
          )
      go (some l) h =
          let (c, made) = parse_config-parsed must_parse config fine limits req.agent l e h in
          let (next, parsed, _) =
            >>=-eq-some (must_parse l.schedule)
              (λ next. some (record { next = next; duration = l.duration })) made in
          let cron : Cron = record { next = next; duration = l.duration } in
          let looked : lookup req.agent limits ≡ some cron =
            found (some l) h
            ∙ ap (λ o. o >>= λ n. some (record { next = n; duration = l.duration })) parsed in
          let known =
            is_limited_iff (Scheduled l.schedule) cron (parses l.schedule next parsed) now
              (late l h) in
          (
            λ x.
                let x' : is_limited cron now ≡ true = rw looked at x in
                let (s, on, before, after) = known.0 x' in (l, h, s, on, before, after),
            λ w.
                let same : w.0 ≡ l = some-injective _ _ (sym w.1 ∙ h) in
                rw looked (known.1 (subst (WindowOf now) same (w.2, w.3, w.4, w.5))),
          )
