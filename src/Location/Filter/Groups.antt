-- ===== src/Location/Filter/Groups.antt =====
-- `filterSites`, first loop: the map of sites is the grouping of the valid instances by site.
use locate.Prelude.{
  String, ◌≡◌, refl, sym, ap, ◌∙◌, Option, none, some, List, [], ◌∷◌, ◌++◌, map, arith, ◌==◌,
  eq_iff, if◌then◌else◌, if-eq_congr,
}
use mathlib.Core.List.{append-nil, append_assoc}
use locate.Prelude.Maps.{Map, lookup, lookup-insert, lookup-nil}
use locate.Api.{HeartbeatMessage}
use locate.Float.{Float64}
use locate.Host.{HostPackage}
use locate.Location.Types.{NearestOptions, Site}
use locate.Location.Valid.{Haversine}
use locate.Location.Filter.{Entry, new_site, add_machine, place, entry, group_sites}

-- The entries of one site, in order.
unfoldable pub at_site : String → List Entry → List Entry
at_site name [] = []
at_site name (e ∷ es) =
    let rest = at_site name es in if e.registration.site == name then e ∷ rest else rest

-- A site as one reads it off its entries: distance and registration of the first, machines of all.
unfoldable pub site_of : List Entry → Option Site
unfolding new_site
site_of [] = none
site_of (e ∷ es) = some (record (new_site e) { machines = map (λ x. x.machine) (e ∷ es) })

extend : Option Site → List Entry → Option Site
extend s [] = s
extend s (e ∷ es) = extend (some (add_machine s e)) es

extend-some :
    (s : Site) (es : List Entry)
    → extend (some s) es ≡ some (record s { machines = s.machines ++ map (λ x. x.machine) es })
unfolding extend add_machine
extend-some s [] = ap (λ ms. some (record s { machines = ms })) (sym (append-nil s.machines))
extend-some s (e ∷ es) =
    extend-some _ es
    ∙ ap (λ ms. some (record s { machines = ms }))
        (append_assoc s.machines (e.machine ∷ []) (map (λ x. x.machine) es))

extend-none : (es : List Entry) → extend none es ≡ site_of es
unfolding extend add_machine site_of
extend-none [] = refl
extend-none (e ∷ es) = extend-some _ es

lookup-place :
    (name : String) (m : Map Site) (e : Entry)
    → lookup name (place m (some e)) ≡ (
        if e.registration.site == name then some (add_machine (lookup name m) e) else lookup name m)
unfolding place
lookup-place name m e =
    rw lookup-insert (
      if-eq_congr (λ k. some (add_machine (lookup k m) e)) e.registration.site name (lookup name m))

module _ (H : HostPackage) (haversine : Haversine) (service : String) (lat lon : Float64)
    (opts : NearestOptions) where
  keep_entry : Option Entry → List Entry → List Entry
  keep_entry none es = es
  keep_entry (some e) es = e ∷ es

  -- What the valid instances give, in order.
  unfoldable pub entries : List HeartbeatMessage → List Entry
  unfolding keep_entry
  entries [] = []
  entries (v ∷ vs) = keep_entry (entry H haversine service lat lon opts v) (entries vs)

  lookup-group_sites_from :
      (name : String) (m : Map Site) (vs : List HeartbeatMessage)
      → lookup name (group_sites H haversine service lat lon opts m vs)
        ≡ extend (lookup name m) (at_site name (entries vs))
  unfolding group_sites entries extend at_site place
  lookup-group_sites_from name m [] = refl
  lookup-group_sites_from name m (v ∷ vs) =
      lookup-group_sites_from name (place m (entry H haversine service lat lon opts v)) vs
      ∙ step (entry H haversine service lat lon opts v)
    where
      step :
          (o : Option Entry)
          → extend (lookup name (place m o)) (at_site name (entries vs))
            ≡ extend (lookup name m) (at_site name (keep_entry o (entries vs)))
      step none = refl
      step (some e) = rw (lookup-place name m e) (ground (arith, eq_iff e.registration.site name))

  -- The map of sites has, at each name, the site of the valid instances of that name.
  pub lookup-group_sites :
      (name : String) (vs : List HeartbeatMessage)
      → lookup name (group_sites H haversine service lat lon opts [] vs)
        ≡ site_of (at_site name (entries vs))
  lookup-group_sites name vs =
      lookup-group_sites_from name [] vs ∙ rw lookup-nil (extend-none (at_site name (entries vs)))
