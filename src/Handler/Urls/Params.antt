-- ===== src/Handler/Urls/Params.antt =====
-- The parameters that a URL carries.
use text.Mathlib.Text.{starts_with}
use locate.Prelude.{
  ℕ, String, ◌≡◌, ◌≢◌, refl, ap, ◌∙◌, Bool, true, false, ◌&&◌, ◌||◌, Option, none, some, List, [],
  ◌∷◌, arith, ◌==◌, eq_iff, if◌then◌else◌,
}
use locate.Prelude.Maps.{lookup, keys, contains, lookup-insert, lookup-nil, contains-keys-none}
use locate.Prelude.Keyed.{lookup-contains}
use locate.Handler.Urls.{
  Values, get, set, ParamOpts, Web, drawn, add_param, add_params, add_rank, extra_params,
  copy_params, params_for,
}

-- `range` visits each key of the map.
pub record Visits (order : List String → List String) : Type 0 where
  pub same : (ks : List String) (k : String) → contains (order ks) k ≡ contains ks k

lookup-set :
    (k j value : String) (v : Values)
    → lookup j (set k value v) ≡ (if k == j then some (value ∷ []) else lookup j v)
unfolding set
lookup-set k j value v = lookup-insert k j (value ∷ []) v

-- Setting a parameter in either of two branches, or in both.
lookup-set_either :
    (k j value : String) (v : Values) (first second : Bool)
    → lookup j
        (let v' = if first then set k value v else v in if second then set k value v' else v')
      ≡ (if k == j && (first || second) then some (value ∷ []) else lookup j v)
lookup-set_either k j value v true true =
    ground (arith, lookup-set k j value (set k value v), lookup-set k j value v)
lookup-set_either k j value v true false = ground (arith, lookup-set k j value v)
lookup-set_either k j value v false true = ground (arith, lookup-set k j value v)
lookup-set_either k j value v false false = ground arith

module _ (W : Web) (i : ℕ) (p : ParamOpts) where
  -- whether `extraParams` passes on a parameter of the request
  unfoldable pub passes : String → Bool
  passes key = starts_with key "client_" || drawn (lookup key p.svc_params) (W.chance i key)

  lookup-add_param :
      (key j : String) (v : Values)
      → lookup j (add_param W i p key v)
        ≡ (if key == j && passes j then some (get j p.raw ∷ []) else lookup j v)
  unfolding add_param passes
  lookup-add_param key j v =
      lookup-set_either key j (get key p.raw) v (starts_with key "client_")
        (drawn (lookup key p.svc_params) (W.chance i key))
      ∙ go (key == j) (eq_iff key j).0
    where
      go :
          (b : Bool)
          → (b ≡ true → key ≡ j)
          → (if b && passes key then some (get key p.raw ∷ []) else lookup j v)
            ≡ (if b && passes j then some (get j p.raw ∷ []) else lookup j v)
      go false same = refl
      go true same = ap (λ k. if passes k then some (get k p.raw ∷ []) else lookup j v) (same refl)

  lookup-add_params :
      (ks : List String) (j : String) (v : Values)
      → lookup j (add_params W i p ks v)
        ≡ (if contains ks j && passes j then some (get j p.raw ∷ []) else lookup j v)
  unfolding add_params contains
  lookup-add_params [] j v = refl
  lookup-add_params (key ∷ rest) j v =
      ground (arith, lookup-add_params rest j (add_param W i p key v), lookup-add_param key j v)

  lookup-add_rank :
      (rank : Option ℕ) (j : String) (v : Values)
      → j ≢ "metro_rank"
      → lookup j (add_rank W rank v) ≡ lookup j v
  lookup-add_rank none j v other = refl
  lookup-add_rank (some rank) j v other =
      ground (arith, lookup-set "metro_rank" j (W.itoa rank) v, eq_iff "metro_rank" j, other)

  -- Of the parameters of the request `extraParams` passes on, with their first value, those that start
  -- with `client_` and the known ones that are drawn, and no others. The names that it sets itself are
  -- left out here.
  pub lookup-extra_params :
      Visits W.order
      → (hostname j : String) → j ≢ "locate_version"
      → j ≢ "metro_rank"
      → j ≢ "index"
      → lookup j (extra_params W hostname i p)
        ≡ (if contains (keys p.raw) j && passes j then some (get j p.raw ∷ []) else none)
  unfolding extra_params
  lookup-extra_params visits hostname j a b c =
      let v = add_params W i p (W.order (keys p.raw)) [] in
      let w = set "locate_version" p.version v in
      ground (
        arith,
        lookup-set "index" j (W.itoa i) (add_rank W (lookup hostname p.ranks) w),
        lookup-add_rank (lookup hostname p.ranks) j w b,
        lookup-set "locate_version" j p.version v,
        lookup-add_params (W.order (keys p.raw)) j [],
        lookup-nil {V = List String} j,
        visits.same (keys p.raw) j,
        eq_iff "index" j,
        eq_iff "locate_version" j,
        a,
        c,
      )

  lookup-extra_params-index :
      (hostname : String) → lookup "index" (extra_params W hostname i p) ≡ some (W.itoa i ∷ [])
  unfolding extra_params
  lookup-extra_params-index hostname = lookup-set "index" "index" (W.itoa i) _

module _ (W : Web) where
  lookup-copy_params :
      (ks : List String) (extra : Values) (j : String) (params : Values)
      → lookup j (copy_params W ks extra params)
        ≡ (if contains ks j then some (get j extra ∷ []) else lookup j params)
  unfolding copy_params contains
  lookup-copy_params [] extra j params = refl
  lookup-copy_params (key ∷ rest) extra j params =
      lookup-copy_params rest extra j (set key (get key extra) params)
      ∙ go (key == j) (eq_iff key j).0 (lookup-set key j (get key extra) params)
    where
      go :
          (b : Bool)
          → (b ≡ true → key ≡ j)
          → lookup j (set key (get key extra) params)
            ≡ (if b then some (get key extra ∷ []) else lookup j params)
          → (if contains rest j
              then some (get j extra ∷ [])
              else lookup j (set key (get key extra) params))
            ≡ (if b || contains rest j then some (get j extra ∷ []) else lookup j params)
      go false same here = ground (arith, here)
      go true same here = ground (arith, here ∙ ap (λ k. some (get k extra ∷ [])) (same refl))

  module _ (visits : Visits W.order) (token : String) where
    pub lookup-params_for :
        (extra : Values) (j : String)
        → lookup j (params_for W token extra) ≡ (
            if contains (keys extra) j
            then some (get j extra ∷ [])
            else (if "access_token" == j then some (token ∷ []) else none))
    unfolding params_for
    lookup-params_for extra j = ground (
      arith,
      lookup-copy_params (W.order (keys extra)) extra j (set "access_token" token []),
      visits.same (keys extra) j,
      lookup-set "access_token" j token [],
      lookup-nil {V = List String} j,
    )

    -- A URL carries what `extraParams` gives for each name that it gives something for, in its first value.
    pub lookup-params_for_extra :
        (extra : Values) (j value : String)
        → lookup j extra ≡ some (value ∷ [])
        → lookup j (params_for W token extra) ≡ some (value ∷ [])
    unfolding get
    lookup-params_for_extra extra j value h =
        lookup-params_for extra j
        ∙ ground (arith, lookup-contains j (value ∷ []) extra h, get-value)
      where
        get-value : get j extra ≡ value
        get-value = rw h refl

    module _ (i : ℕ) (p : ParamOpts) (hostname : String) where
      -- No parameter of the request takes the place of the access token, where it is not among the
      -- parameters that the service passes on by chance.
      pub lookup-access_token :
          lookup "access_token" p.svc_params ≡ none
          → lookup "access_token" (params_for W token (extra_params W hostname i p))
            ≡ some (token ∷ [])
      unfolding passes
      lookup-access_token unknown =
          let extra = extra_params W hostname i p in
          let absent : lookup "access_token" extra ≡ none =
            lookup-extra_params W i p visits hostname "access_token" (λ e. cc) (λ e. cc) (λ e. cc)
            ∙ ground (arith, passes-access_token) in
          lookup-params_for extra "access_token"
          ∙ ground (arith, contains-keys-none "access_token" extra absent)
        where
          passes-access_token : passes W i p "access_token" ≡ false
          passes-access_token = rw unknown refl

      pub lookup-index :
          lookup "index" (params_for W token (extra_params W hostname i p)) ≡ some (W.itoa i ∷ [])
      lookup-index =
          lookup-params_for_extra (extra_params W hostname i p) "index" (W.itoa i)
            (lookup-extra_params-index W i p hostname)
