-- ===== src/Handler/Urls/Tokens.antt =====
-- Every target gets the URLs of all ports, with a token for its own machine.
use locate.Prelude.{
  ℕ, suc, String, ◌≡◌, refl, ◌∙◌, Option, none, some, List, [], ◌∷◌, arith, ◌==◌, if◌then◌else◌,
}
use locate.Prelude.Maps.{Map, lookup, insert, lookup-insert, lookup-nil}
use locate.Url.{Url}
use locate.Location.Types.{Target}
use locate.Handler.Urls.{
  Values, ParamOpts, Claims, Web, extra_params, claims_for, get_access_token, params_for, url_for,
  get_urls_from, get_urls, populate_from, populate_urls,
}
use locate.Handler.Urls.Params.{Visits, lookup-access_token, lookup-index}

abbrev or_else : Option Url → Option Url → Option Url
or_else none o = o
or_else (some u) o = some u

abbrev pub map_url : (Url → String) → Option Url → Option String
map_url f none = none
map_url f (some u) = some (f u)

module _ (W : Web) where
  -- the last port with this text
  unfoldable pub last_port : String → List Url → Option Url
  last_port name [] = none
  last_port name (port ∷ ports) =
      or_else (last_port name ports) (if W.url.string port == name then some port else none)

  abbrev text_of : String → String → Values → Url → String
  text_of hostname token extra port = W.url.string (url_for W hostname token extra port)

  abbrev kept : Option String → Option String → Option String
  kept none o = o
  kept (some u) o = some u

  lookup-get_urls_from :
      (hostname token : String) (extra : Values) (name : String) (ports : List Url)
      (urls : Map String)
      → lookup name (get_urls_from W hostname token extra ports urls)
        ≡ kept (map_url (text_of hostname token extra) (last_port name ports)) (lookup name urls)
  unfolding get_urls_from last_port
  lookup-get_urls_from hostname token extra name [] urls = refl
  lookup-get_urls_from hostname token extra name (port ∷ ports) urls = ground (
    arith,
    lookup-get_urls_from hostname token extra name ports
        (insert (W.url.string port) (text_of hostname token extra port) urls),
    lookup-insert (W.url.string port) name (text_of hostname token extra port) urls,
  )

  -- The map of `getURLs` has the URL made of the last port with that text, and no other.
  pub lookup-get_urls :
      (ports : List Url) (hostname token : String) (extra : Values) (name : String)
      → lookup name (get_urls W ports hostname token extra)
        ≡ map_url (text_of hostname token extra) (last_port name ports)
  unfolding get_urls
  lookup-get_urls ports hostname token extra name =
      lookup-get_urls_from hostname token extra name ports []
      ∙ ground (arith, lookup-nil {V = String} name)

  module _ (ports : List Url) (exp : String) where
    -- The `i`-th target, once it has its URLs: each is that of a port, with the host name of the target,
    -- and carries a token that is signed for the machine of the target and the experiment, and the index.
    pub record IsPopulated (i : ℕ) (before after : Target) : Type 0 where
      pub machine : after.machine ≡ before.machine
      pub hostname : after.hostname ≡ before.hostname
      pub location : after.location ≡ before.location
      pub token : String
      pub signed : W.sign (claims_for W i before.machine exp) ≡ some token
      pub params : Values
      pub authorized : lookup "access_token" params ≡ some (token ∷ [])
      pub indexed : lookup "index" params ≡ some (W.itoa i ∷ [])
      pub complete :
          (name : String)
          → lookup name after.urls
            ≡ map_url
                (λ port. W.url.string (record port {
                  raw_query = W.encode params;
                  host = W.execute before.hostname port.host;
                }))
                (last_port name ports)

    abbrev pub ArePopulated : ℕ → List Target → List Target → Type 0
    ArePopulated i [] [] = Unit
    ArePopulated i (t ∷ ts) (t' ∷ ts') = IsPopulated i t t' × ArePopulated (suc i) ts ts'
    ArePopulated i [] (t' ∷ ts') = ⊥
    ArePopulated i (t ∷ ts) [] = ⊥

    module _ (opts : ParamOpts) (visits : Visits W.order)
        (unknown : lookup "access_token" opts.svc_params ≡ none)
        (signs : (c : Claims) → (token : String) × (W.sign c ≡ some token)) where
      populated :
          (i : ℕ) (t : Target) (token : String)
          → W.sign (claims_for W i t.machine exp) ≡ some token
          → IsPopulated i t (record t {
            urls = get_urls W ports t.hostname token (extra_params W t.machine i opts);
          })
      unfolding url_for
      populated i t token signed = record {
        machine = refl;
        hostname = refl;
        location = refl;
        token = token;
        signed = signed;
        params = params_for W token (extra_params W t.machine i opts);
        authorized = lookup-access_token W visits token i opts t.machine unknown;
        indexed = lookup-index W visits token i opts t.machine;
        complete = lookup-get_urls ports t.hostname token (extra_params W t.machine i opts);
      }

      populate_from-ArePopulated :
          (i : ℕ) (ts : List Target)
          → (ts' : List Target) × (populate_from W i ts ports exp opts ≡ some ts')
            × ArePopulated i ts ts'
      unfolding populate_from get_access_token
      populate_from-ArePopulated i [] = ([], refl, tt)
      populate_from-ArePopulated i (t ∷ ts) =
          let (token, signed) = signs (claims_for W i t.machine exp) in
          let (ts', e, more) = populate_from-ArePopulated (suc i) ts in
          let t' = record t {
            urls = get_urls W ports t.hostname token (extra_params W t.machine i opts);
          } in
          (t' ∷ ts', rw signed (rw e refl), (populated i t token signed, more))

      -- Where signing does not fail, `populateURLs` does not panic and fills in every target: for each
      -- port the URL with the host name of the target, whose parameters have the access token that was
      -- signed for this machine and this experiment, whatever parameters the request has.
      pub populate_urls-ArePopulated :
          (targets : List Target)
          → (targets' : List Target) × (populate_urls W targets ports exp opts ≡ some targets')
            × ArePopulated 0 targets targets'
      unfolding populate_urls
      populate_urls-ArePopulated = populate_from-ArePopulated 0
