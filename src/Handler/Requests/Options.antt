-- ===== src/Handler/Requests/Options.antt =====
-- handler/handler.go: the options of a request, described without the code that reads them.
use locate.Prelude.{
  String, ◌≡◌, refl, ◌∙◌, sym, ◌↔◌, ◌⊎◌, Bool, true, false, Option, List, arith, eq_iff,
}
use locate.Prelude.Maps.{lookup}
use locate.Location.Types.{NearestOptions}
use locate.Handler.Urls.{get}
use locate.Handler.Requests.{Request, or_false, parse_bool, options_of}

-- What `strconv.ParseBool` reads as true.
abbrev pub IsYes : String → Type 0
IsYes s = (s ≡ "1") ⊎ (s ≡ "t") ⊎ (s ≡ "T") ⊎ (s ≡ "TRUE") ⊎ (s ≡ "true") ⊎ (s ≡ "True")

-- The options that the request asks for: the country is that of the query for a strict request, and that of
-- App Engine for any other.
pub record IsAsked (req : Request) (o : NearestOptions) : Type 0 where
  pub type : o.type ≡ get "machine-type" req.query
  pub sites : o.sites ≡ lookup "site" req.query
  pub org : o.org ≡ get "org" req.query
  pub strict : (o.strict ≡ true) ↔ IsYes (get "strict" req.query)
  pub own_country : o.strict ≡ true → o.country ≡ get "country" req.query
  pub app_engine_country : o.strict ≡ false → o.country ≡ req.app_engine_country

parse_bool-IsYes : (s : String) → (or_false (parse_bool s) ≡ true) ↔ IsYes s
unfolding parse_bool
parse_bool-IsYes s =
    let one = eq_iff s "1" in
    let t = eq_iff s "t" in
    let t_upper = eq_iff s "T" in
    let true_upper = eq_iff s "TRUE" in
    let true_lower = eq_iff s "true" in
    let true_title = eq_iff s "True" in
    (
      λ h. ground (arith, h, one, t, t_upper, true_upper, true_lower, true_title),
      λ h. ground (arith, h, one, t, t_upper, true_upper, true_lower, true_title),
    )

strict-IsYes : (req : Request) → ((options_of req).strict ≡ true) ↔ IsYes (get "strict" req.query)
unfolding options_of
strict-IsYes req = parse_bool-IsYes (get "strict" req.query)

pub options_of-IsAsked : (req : Request) → IsAsked req (options_of req)
unfolding options_of
options_of-IsAsked req = record {
  type = refl;
  sites = refl;
  org = refl;
  strict = strict-IsYes req;
  own_country = λ h. rw h refl;
  app_engine_country = λ h. rw h refl;
}

options_congr :
    {type type' country country' org org' : String} {sites sites' : Option (List String)}
    {strict strict' : Bool}
    → type ≡ type'
    → sites ≡ sites'
    → country ≡ country'
    → org ≡ org'
    → strict ≡ strict'
    → ◌≡◌ {A = NearestOptions}
        (record { type = type; sites = sites; country = country; org = org; strict = strict })
        (record { type = type'; sites = sites'; country = country'; org = org'; strict = strict' })
options_congr p q r s t = rw (p, q, r, s, t) refl

same_truth : (b c : Bool) {P : Type 0} → (b ≡ true) ↔ P → (c ≡ true) ↔ P → b ≡ c
same_truth true c h k = sym (k.1 (h.0 refl))
same_truth false true h k = h.1 (k.0 refl)
same_truth false false h k = refl

same_options : (req : Request) (o o' : NearestOptions) → IsAsked req o → IsAsked req o' → o ≡ o'
same_options req o o' a b =
    options_congr (a.type ∙ sym b.type) (a.sites ∙ sym b.sites) (go o.strict refl)
      (a.org ∙ sym b.org) same
  where
    same : o.strict ≡ o'.strict
    same = same_truth o.strict o'.strict a.strict b.strict

    go : (s : Bool) → o.strict ≡ s → o.country ≡ o'.country
    go true e = a.own_country e ∙ sym (b.own_country (sym same ∙ e))
    go false e = a.app_engine_country e ∙ sym (b.app_engine_country (sym same ∙ e))

-- The options that the code reads are the ones asked for.
pub options_of_unique : (req : Request) (o : NearestOptions) → IsAsked req o → options_of req ≡ o
options_of_unique req o asked = same_options req (options_of req) o (options_of-IsAsked req) asked
