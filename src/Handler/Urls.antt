-- ===== src/Handler/Urls.antt =====
-- handler/handler.go: the URLs of the targets, with their parameters and access tokens.
pub mod Params
pub mod Tokens
use Prim.Native.String.{◌++◌}
use text.Mathlib.Text.{starts_with}
use locate.Prelude.{
  ℕ, suc, ◌*◌, ◌+◌, String, Bool, false, Option, none, some, List, [], ◌∷◌, if◌then◌else◌, ◌>>=◌,
}
use locate.Prelude.Maps.{Map, lookup, insert, keys}
use locate.Float.{Float64, lt}
use locate.Url.{Url, UrlPackage}
use locate.Location.Types.{Target}

-- `url.Values` with its methods `Get` and `Set`
abbrev pub Values : Type 0
Values = Map (List String)

abbrev first_or_empty : Option (List String) → String
first_or_empty (some (v ∷ vs)) = v
first_or_empty (some []) = ""
first_or_empty none = ""

unfoldable pub get : String → Values → String
get key v = first_or_empty (lookup key v)

unfoldable pub set : String → String → Values → Values
set key value v = insert key (value ∷ []) v

abbrev pub one : Float64
one = record { negative = false; magnitude = 0x3ff0_0000_0000_0000 }

-- `static.ServiceParams`
abbrev pub service_params : Map Float64
service_params =
    ("early_exit", record { negative = false; magnitude = 0x3fec_cccc_cccc_cccd })
    ∷ ("max_cwnd_gain", one)
    ∷ ("max_elapsed_time", one)
    ∷ []

pub record ParamOpts : Type 0 where
  pub raw : Values
  pub version : String
  pub ranks : Map ℕ
  pub svc_params : Map Float64

-- `jwt.Claims`, with the fields that the service sets
pub record Claims : Type 0 where
  pub issuer : String
  pub subject : String
  pub audience : List String
  pub expiry : ℕ
  pub id : String

-- What comes from other packages: `strconv.Itoa`, the methods of `url.URL` and `url.Values`, the
-- execution of the template `{{.Hostname}}{{.Ports}}`, the signer, the clock at the `i`-th target and
-- `uuid.NewString`, the order of `range` over the parameters, and `rand.Float64` for the `i`-th target
-- and a parameter.
pub record Web : Type 0 where
  pub itoa : ℕ → String
  pub url : UrlPackage
  pub encode : Values → String
  pub execute : String → String → String
  pub sign : Claims → Option String
  pub clock : ℕ → ℕ
  pub uuid : ℕ → String
  pub order : List String → List String
  pub chance : ℕ → String → Float64

-- whether a parameter of the request that the service knows is drawn
abbrev pub drawn : Option Float64 → Float64 → Bool
drawn none x = false
drawn (some p) x = lt x p

module _ (W : Web) where
  -- one round of the loop of `extraParams`
  unfoldable pub add_param : ℕ → ParamOpts → String → Values → Values
  unfolding set
  add_param i p key v =
      let v' = if starts_with key "client_" then set key (get key p.raw) v else v in
      if drawn (lookup key p.svc_params) (W.chance i key) then set key (get key p.raw) v' else v'

  unfoldable pub add_params : ℕ → ParamOpts → List String → Values → Values
  unfolding add_param
  add_params i p [] v = v
  add_params i p (key ∷ rest) v = add_params i p rest (add_param i p key v)

  abbrev add_rank : Option ℕ → Values → Values
  add_rank none v = v
  add_rank (some rank) v = set "metro_rank" (W.itoa rank) v

  unfoldable pub extra_params : String → ℕ → ParamOpts → Values
  unfolding add_params
  extra_params hostname index p =
      let v = set "locate_version" p.version (add_params index p (W.order (keys p.raw)) []) in
      set "index" (W.itoa index) (add_rank (lookup hostname p.ranks) v)

  -- the claims of the token for the target `i`; a token lives for a minute
  unfoldable pub claims_for : ℕ → String → String → Claims
  claims_for i machine subject = record {
    issuer = "locate";
    subject = subject;
    audience = machine ∷ [];
    expiry = W.clock i + 60 * 1_000_000_000;
    id = W.uuid i;
  }

  -- `none` is the panic where signing fails.
  unfoldable pub get_access_token : ℕ → String → String → Option String
  unfolding claims_for
  get_access_token i machine subject = W.sign (claims_for i machine subject)

  -- the loop `for key := range extra`
  unfoldable pub copy_params : List String → Values → Values → Values
  unfolding set
  copy_params [] extra params = params
  copy_params (key ∷ rest) extra params = copy_params rest extra (set key (get key extra) params)

  unfoldable pub params_for : String → Values → Values
  unfolding copy_params
  params_for token extra = copy_params (W.order (keys extra)) extra (set "access_token" token [])

  unfoldable pub url_for : String → String → Values → Url → Url
  unfolding params_for
  url_for hostname token extra target = record target {
    raw_query = W.encode (params_for token extra);
    host = W.execute hostname target.host;
  }

  unfoldable pub get_urls_from : String → String → Values → List Url → Map String → Map String
  unfolding url_for
  get_urls_from hostname token extra [] urls = urls
  get_urls_from hostname token extra (target ∷ ports) urls =
      get_urls_from hostname token extra ports
        (insert (W.url.string target) (W.url.string (url_for hostname token extra target)) urls)

  unfoldable pub get_urls : List Url → String → String → Values → Map String
  unfolding get_urls_from
  get_urls ports hostname token extra = get_urls_from hostname token extra ports []

  -- the loop of `populateURLs`, from target `i` on
  unfoldable pub populate_from :
      ℕ → List Target → List Url → String → ParamOpts → Option (List Target)
  unfolding get_access_token extra_params get_urls
  populate_from i [] ports exp opts = some []
  populate_from i (target ∷ rest) ports exp opts = do
    token ← get_access_token i target.machine exp
    let params = extra_params target.machine i opts
    more ← populate_from (suc i) rest ports exp opts
    some (record target { urls = get_urls ports target.hostname token params } ∷ more)

  unfoldable pub populate_urls : List Target → List Url → String → ParamOpts → Option (List Target)
  unfolding populate_from
  populate_urls targets ports exp opts = populate_from 0 targets ports exp opts
