-- ===== src/Location/Filter/Sound.antt =====
-- `filterSites` as a whole: each site it returns is the group of the valid instances of its name,
-- no name comes twice, and where sites are not dropped at random none is missing.
use mathlib.Core.List.{Permᴰ}
use mathlib.Core.List.Permᴰ
use locate.Prelude.{
  ℕ, suc, String, ◌≡◌, refl, sym, ap, ◌∙◌, true, inl, inr, Option, none, some, List, [], ◌∷◌, map,
  arith, ◌==◌, eq_iff, Bool-cases, All, All-map,
}
use locate.Prelude.Maps.{Map, lookup, values, contains}
use locate.Prelude.Perm.{Pairs, Distinct, All-perm, Distinct-perm}
use locate.Prelude.Keyed.{
  DistinctKeys, KeyedBy, DistinctKeys-insert, KeyedBy-insert, lookup-KeyedBy, values-lookup,
  values-Distinct, map-values, lookup-contains, contains-perm,
}
use locate.Api.{HeartbeatMessage}
use locate.Float.{Float64}
use locate.Host.{HostPackage}
use locate.Location.Types.{NearestOptions, Site, site_name}
use locate.Location.Valid.{Haversine}
use locate.Location.Filter.{
  Entry, new_site, add_machine, place, entry, always_pick, keep_sites, group_sites, filter_sites,
}
use locate.Location.Filter.Groups.{at_site, site_of, entries, lookup-group_sites}

module _ (opts : NearestOptions) (draw : ℕ → Float64) where
  keep_sites-All {κ} :
      (P : Site → Type κ) (n : ℕ) (ss : List Site) → All P ss → All P (keep_sites opts draw n ss)
  unfolding keep_sites
  keep_sites-All P n [] h = tt
  keep_sites-All P n (s ∷ ss) h = ground (arith, keep_sites-All P (suc n) ss h.1)

  keep_sites-Pairs {κ} :
      (R : Site → Site → Type κ) (n : ℕ) (ss : List Site)
      → Pairs R ss
      → Pairs R (keep_sites opts draw n ss)
  unfolding keep_sites
  keep_sites-Pairs R n [] h = tt
  keep_sites-Pairs R n (s ∷ ss) h =
      ground (arith, keep_sites-All (R s) (suc n) ss h.0, keep_sites-Pairs R (suc n) ss h.1)

  keep_sites-always :
      (n : ℕ) (ss : List Site) → always_pick opts ≡ true → keep_sites opts draw n ss ≡ ss
  unfolding keep_sites
  keep_sites-always n [] a = refl
  keep_sites-always n (s ∷ ss) a = rw a (ap (◌∷◌ s) (keep_sites-always (suc n) ss a))

add_machine-site_name :
    (m : Map Site) (e : Entry)
    → KeyedBy site_name m
    → site_name (add_machine (lookup e.registration.site m) e) ≡ e.registration.site
unfolding add_machine new_site
add_machine-site_name m e h = go (lookup e.registration.site m) refl
  where
    go :
        (o : Option Site)
        → lookup e.registration.site m ≡ o
        → site_name (add_machine o e) ≡ e.registration.site
    go none x = refl
    go (some s) x = lookup-KeyedBy site_name e.registration.site s m h x

module _ (H : HostPackage) (haversine : Haversine) (service : String) (lat lon : Float64)
    (opts : NearestOptions) where
  group_sites-KeyedBy :
      (m : Map Site) (vs : List HeartbeatMessage)
      → KeyedBy site_name m
      → KeyedBy site_name (group_sites H haversine service lat lon opts m vs)
  unfolding group_sites
  group_sites-KeyedBy m [] h = h
  group_sites-KeyedBy m (v ∷ vs) h = group_sites-KeyedBy (place m o) vs (step o)
    where
      o : Option Entry
      o = entry H haversine service lat lon opts v

      step : (o : Option Entry) → KeyedBy site_name (place m o)
      step none = h
      step (some e) =
          KeyedBy-insert site_name e.registration.site _ m (add_machine-site_name m e h) h

  group_sites-DistinctKeys :
      (m : Map Site) (vs : List HeartbeatMessage)
      → DistinctKeys m
      → DistinctKeys (group_sites H haversine service lat lon opts m vs)
  unfolding group_sites
  group_sites-DistinctKeys m [] h = h
  group_sites-DistinctKeys m (v ∷ vs) h = group_sites-DistinctKeys (place m o) vs (step o)
    where
      o : Option Entry
      o = entry H haversine service lat lon opts v

      step : (o : Option Entry) → DistinctKeys (place m o)
      step none = h
      step (some e) = DistinctKeys-insert e.registration.site _ m h

  at_site-nonempty :
      (name : String) (es : List Entry) (e : Entry)
      → e.registration.site ≡ name
      → (s : Site) × (site_of (at_site name (e ∷ es)) ≡ some s)
  unfolding at_site site_of
  at_site-nonempty name es e h = rw ((eq_iff e.registration.site name).1 h) (_, refl)

  at_site-inhabited :
      (es : List Entry)
      → All (λ e. (s : Site) × (site_of (at_site e.registration.site es) ≡ some s)) es
  at_site-inhabited [] = tt
  at_site-inhabited (e ∷ es) = (
    at_site-nonempty e.registration.site es e refl,
    All-map _ _ es (λ x h. skip x h.0 h.1) (at_site-inhabited es),
  )
    where
      skip :
          (x : Entry) (s : Site)
          → site_of (at_site x.registration.site es) ≡ some s
          → (s : Site) × (site_of (at_site x.registration.site (e ∷ es)) ≡ some s)
      skip x s h = elim (Bool-cases (e.registration.site == x.registration.site)) [
        | inl p ↦ at_site-nonempty x.registration.site es e ((eq_iff _ _).0 p)
        | inr p ↦ (s, unfold at_site in rw p h)
      ]

  module _ (instances : Map HeartbeatMessage) (order : List Site → List Site) (draw : ℕ → Float64)
      (shuffles : (l : List Site) → Permᴰ l (order l)) where
    groups : Map Site
    groups = group_sites H haversine service lat lon opts [] (values instances)

    groups-All :
        All
          (λ s.
            site_of
              (at_site (site_name s) (entries H haversine service lat lon opts (values instances)))
            ≡ some s)
          (values groups)
    unfolding groups
    groups-All =
        All-map _ _ (values groups)
          (λ s h.
            sym
              (lookup-group_sites H haversine service lat lon opts (site_name s) (values instances))
            ∙ h)
          (values-lookup site_name groups (group_sites-KeyedBy [] (values instances) tt)
            (group_sites-DistinctKeys [] (values instances) tt))

    -- Whatever the order in which the maps are walked and the numbers drawn: each site that
    -- `filterSites` returns is the group of the valid instances of that site (the distance and the
    -- registration of the first, host name and machine blanked, and the machines of all, in order),
    -- and no site is returned twice.
    pub filter_sites_sound :
        All
          (λ s.
            site_of
              (at_site (site_name s) (entries H haversine service lat lon opts (values instances)))
            ≡ some s)
          (filter_sites H haversine service lat lon instances opts order draw)
        × Distinct site_name (filter_sites H haversine service lat lon instances opts order draw)
    unfolding filter_sites groups
    filter_sites_sound = (
      keep_sites-All opts draw _ 0 (order (values groups))
          (All-perm _ (shuffles (values groups)) groups-All),
      keep_sites-Pairs opts draw _ 0 (order (values groups)) (
          Distinct-perm site_name (shuffles (values groups)) (
            values-Distinct site_name groups (group_sites-KeyedBy [] (values instances) tt)
              (group_sites-DistinctKeys [] (values instances) tt))),
    )

    -- Where the request limits the sites, the machine type to virtual, or the organisation, every
    -- valid instance has its site among those that `filterSites` returns.
    pub filter_sites_complete :
        always_pick opts ≡ true
        → All
            (λ e.
              contains
                (map site_name (filter_sites H haversine service lat lon instances opts order draw))
                e.registration.site
              ≡ true)
            (entries H haversine service lat lon opts (values instances))
    unfolding filter_sites groups
    filter_sites_complete a =
        All-map _ _ (entries H haversine service lat lon opts (values instances))
          (λ e h. present e.registration.site h.0 h.1)
          (at_site-inhabited (entries H haversine service lat lon opts (values instances)))
      where
        present :
            (name : String) (s : Site)
            → site_of (at_site name (entries H haversine service lat lon opts (values instances)))
              ≡ some s
            → contains (map site_name (keep_sites opts draw 0 (order (values groups)))) name ≡ true
        present name s h = rw (keep_sites-always opts draw 0 (order (values groups)) a) (
            sym (contains-perm name (Permᴰ.map site_name (shuffles (values groups))))
            ∙ ap (λ ks. contains ks name)
                (map-values site_name groups (group_sites-KeyedBy [] (values instances) tt))
            ∙ lookup-contains name s groups
                (lookup-group_sites H haversine service lat lon opts name (values instances) ∙ h))
