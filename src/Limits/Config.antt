-- ===== src/Limits/Config.antt =====
-- limits/config.go: the limits of all user agents, from the entries of the configuration file.
use mathlib.Core.Option.{some-injective}
use locate.Prelude.{
  ℕ, String, ◌≡◌, refl, sym, ap, ◌∙◌, Bool, true, false, Option, none, some, List, [], ◌∷◌, ◌==◌,
  ◌>>=◌, >>=-eq-some, if◌then◌else◌,
}
use locate.Prelude.Maps.{Map, lookup, insert, lookup-insert, lookup-nil}
use locate.Limits.{Cron}

pub record AgentConfig : Type 0 where
  pub agent : String
  pub schedule : String
  pub duration : ℕ

-- What `os.Open` and the YAML decoder make of the file: no file, or the entries that were decoded, and
-- whether the decoder returned no error.
pub data ConfigFile : Type 0 where
  missing : ConfigFile
  decoded : List AgentConfig → Bool → ConfigFile

-- the last entry of an agent
unfoldable pub last_entry : String → List AgentConfig → Option AgentConfig
last_entry agent [] = none
last_entry agent (l ∷ config) = elim (last_entry agent config) [
  | some later ↦ some later
  | none ↦ if l.agent == agent then some l else none
]

-- `cronexpr.MustParse` is `none` where it panics; an expression is what its method `Next` is.
module _ (must_parse : String → Option (ℕ → ℕ)) where
  -- `NewCron`
  unfoldable pub new_cron : String → ℕ → Option Cron
  new_cron schedule duration =
      must_parse schedule >>= λ next. some (record { next = next; duration = duration })

  -- the loop over the entries
  unfoldable pub add_limits : Map Cron → List AgentConfig → Option (Map Cron)
  unfolding new_cron
  add_limits lmts [] = some lmts
  add_limits lmts (l ∷ config) =
      new_cron l.schedule l.duration >>= λ c. add_limits (insert l.agent c lmts) config

  -- `ParseConfig`: the limits, and whether it returns no error; `none` is a panic
  unfoldable pub parse_config : ConfigFile → Option (Map Cron × Bool)
  unfolding add_limits
  parse_config missing = some ([], false)
  parse_config (decoded config fine) = add_limits [] config >>= λ lmts. some (lmts, fine)

  abbrev pub cron_of : Option AgentConfig → Option Cron → Option Cron
  cron_of none other = other
  cron_of (some l) other = new_cron l.schedule l.duration

  lookup-add_limits :
      (config : List AgentConfig) (lmts limits : Map Cron) (agent : String)
      → add_limits lmts config ≡ some limits
      → lookup agent limits ≡ cron_of (last_entry agent config) (lookup agent lmts)
  unfolding add_limits last_entry
  lookup-add_limits [] lmts limits agent e = ap (lookup agent) (sym (some-injective _ _ e))
  lookup-add_limits (l ∷ config) lmts limits agent e =
      let (c, made, rest) =
        >>=-eq-some (new_cron l.schedule l.duration)
          (λ c. add_limits (insert l.agent c lmts) config) e in
      lookup-add_limits config (insert l.agent c lmts) limits agent rest
      ∙ (ap (cron_of (last_entry agent config)) (lookup-insert l.agent agent c lmts)
          ∙ go (last_entry agent config) (l.agent == agent) c made)
    where
      go :
          (o : Option AgentConfig) (b : Bool) (c : Cron)
          → new_cron l.schedule l.duration ≡ some c
          → cron_of o (if b then some c else lookup agent lmts)
            ≡ cron_of
                (elim o as (λ _. Option AgentConfig) [
                  | some later ↦ some later
                  | none ↦ if b then some l else none
                ])
                (lookup agent lmts)
      go (some later) b c made = refl
      go none true c made = sym made
      go none false c made = refl

  add_limits-parsed :
      (config : List AgentConfig) (lmts limits : Map Cron) (agent : String) (l : AgentConfig)
      → add_limits lmts config ≡ some limits
      → last_entry agent config ≡ some l
      → (c : Cron) × (new_cron l.schedule l.duration ≡ some c)
  unfolding add_limits last_entry
  add_limits-parsed [] lmts limits agent l e h = cc
  add_limits-parsed (l' ∷ config) lmts limits agent l e h =
      let (c, made, rest) =
        >>=-eq-some (new_cron l'.schedule l'.duration)
          (λ c. add_limits (insert l'.agent c lmts) config) e in
      go (last_entry agent config) (l'.agent == agent) c made
        (add_limits-parsed config (insert l'.agent c lmts) limits agent l rest) h
    where
      go :
          (o : Option AgentConfig) (b : Bool) (c : Cron)
          → new_cron l'.schedule l'.duration ≡ some c
          → (o ≡ some l → (c : Cron) × (new_cron l.schedule l.duration ≡ some c))
          → (elim o as (λ _. Option AgentConfig) [
            | some later ↦ some later
            | none ↦ if b then some l' else none
          ])
            ≡ some l
          → (c : Cron) × (new_cron l.schedule l.duration ≡ some c)
      go (some later) b c made ih h = ih h
      go none true c made ih h =
          (c, ap (λ x. new_cron x.schedule x.duration) (sym (some-injective _ _ h)) ∙ made)
      go none false c made ih h = cc

  -- Every entry that `ParseConfig` used has a schedule that parses.
  pub parse_config-parsed :
      (config : List AgentConfig) (fine : Bool) (limits : Map Cron) (agent : String)
      (l : AgentConfig)
      → parse_config (decoded config fine) ≡ some (limits, fine)
      → last_entry agent config ≡ some l
      → (c : Cron) × (new_cron l.schedule l.duration ≡ some c)
  unfolding parse_config
  parse_config-parsed config fine limits agent l e h =
      let (lmts, added, same) = >>=-eq-some (add_limits [] config) (λ lmts. some (lmts, fine)) e in
      add_limits-parsed config [] lmts agent l added h

  -- The limit of an agent is that of its last entry, and there is none for an agent without an entry.
  pub lookup-parse_config :
      (config : List AgentConfig) (fine : Bool) (limits : Map Cron) (agent : String)
      → parse_config (decoded config fine) ≡ some (limits, fine)
      → lookup agent limits ≡ cron_of (last_entry agent config) none
  unfolding parse_config
  lookup-parse_config config fine limits agent e =
      let (lmts, added, same) = >>=-eq-some (add_limits [] config) (λ lmts. some (lmts, fine)) e in
      ap (λ o. lookup agent o.0) (sym (some-injective _ _ same))
      ∙ (lookup-add_limits config [] lmts agent added
          ∙ ap (cron_of (last_entry agent config)) (lookup-nil agent))
