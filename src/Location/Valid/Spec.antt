-- ===== src/Location/Valid/Spec.antt =====
-- `isValidInstance` against the conditions that its options name.
use locate.Prelude.{
  String, ◌≡◌, ◌≢◌, ◌↔◌, ◌⊎◌, true, false, not, none, some, List, arith, eq_iff, return_if,
  >>=-eq-some, sym, ap, ◌∙◌,
}
use mathlib.Core.Path.{subst}
use locate.Prelude.Maps.{contains, lookup}
use locate.Api.{Registration, Health, HeartbeatMessage}
use locate.Float.{Float64, is_zero, lt}
use locate.Host.{HostPackage}
use locate.Location.Types.{NearestOptions}
use locate.Location.Valid.{
  Haversine, earth_half_circumference_km, is_healthy, wrong_org, check_registration,
  is_valid_instance,
}

-- It has registered, its last score is not 0, and Prometheus does not call it unhealthy.
pub record IsUp (v : HeartbeatMessage) (r : Registration) : Type 0 where
  pub health : Health
  pub registered : v.registration ≡ some r
  pub reported : v.health ≡ some health
  pub scored : is_zero health.score ≡ false
  pub monitored : (v.prometheus ≡ none) ⊎ (v.prometheus ≡ some (record { health = true }))

module _ (H : HostPackage) where
  open H use {Name, org, version}

  -- The organisation is not asked for, or the name is of that organisation: a v2 name is of "mlab".
  abbrev pub OrgFits : NearestOptions → Name → Type 0
  OrgFits opts name =
      (opts.org ≡ "")
      ⊎ (((opts.org ≡ "mlab") ⊎ (version name ≢ "v2"))
          × ((opts.org ≡ org name) ⊎ (version name ≢ "v3")))

  wrong_org_sound :
      (opts : NearestOptions) (name : Name) → wrong_org H opts name ≡ false → OrgFits opts name
  unfolding wrong_org
  wrong_org_sound opts name h = ground (
    arith,
    eq_iff opts.org "",
    eq_iff opts.org "mlab",
    eq_iff (version name) "v2",
    eq_iff (version name) "v3",
    eq_iff opts.org (org name),
  )

  wrong_org_complete :
      (opts : NearestOptions) (name : Name) → OrgFits opts name → wrong_org H opts name ≡ false
  unfolding wrong_org
  wrong_org_complete opts name h = ground (
    arith,
    eq_iff opts.org "",
    eq_iff opts.org "mlab",
    eq_iff (version name) "v2",
    eq_iff (version name) "v3",
    eq_iff opts.org (org name),
  )

module _ (H : HostPackage) (haversine : Haversine) where
  open H use {Name, parse, version, org}

  pub record CanServe (service : String) (lat lon : Float64) (opts : NearestOptions)
      (r : Registration) (name : Name) (distance : Float64) : Type 0 where
    pub type_fits : (opts.type ≡ "") ⊎ (opts.type ≡ r.type)
    pub site_fits :
        (opts.sites ≡ none)
        ⊎ ((sites : List String) × (opts.sites ≡ some sites) × (contains sites r.site ≡ true))
    pub country_fits : (opts.country ≡ "") ⊎ (opts.strict ≡ false) ⊎ (r.country_code ≡ opts.country)
    pub org_fits : OrgFits H opts name
    pub serves : (urls : List String) × (lookup service r.services ≡ some urls)
    pub measured : distance ≡ haversine lat lon r.latitude r.longitude
    pub near : lt earth_half_circumference_km distance ≡ false

  module _ (service : String) (lat lon : Float64) (opts : NearestOptions) where
    check_registration_sound :
        (r : Registration) (name : Name) (x : Name × Float64)
        → check_registration H haversine service lat lon opts r name ≡ some x
        → (x.0 ≡ name) × CanServe service lat lon opts r name x.1
    unfolding check_registration
    check_registration_sound r name x h = ground (
      arith,
      eq_iff opts.type "",
      eq_iff opts.type r.type,
      eq_iff opts.country "",
      eq_iff r.country_code opts.country,
      wrong_org_sound H opts name,
    )

    check_registration_complete :
        (r : Registration) (name : Name) (distance : Float64)
        → CanServe service lat lon opts r name distance
        → check_registration H haversine service lat lon opts r name ≡ some (name, distance)
    unfolding check_registration
    check_registration_complete r name distance h = ground (
      arith,
      eq_iff opts.type "",
      eq_iff opts.type r.type,
      eq_iff opts.country "",
      eq_iff r.country_code opts.country,
      wrong_org_complete H opts name,
    )

    is_healthy_sound :
        (v : HeartbeatMessage) (r : Registration)
        → is_healthy v ≡ true
        → v.registration ≡ some r
        → IsUp v r
    unfolding is_healthy
    is_healthy_sound v r h e = ground arith

    is_healthy_complete : (v : HeartbeatMessage) (r : Registration) → IsUp v r → is_healthy v ≡ true
    unfolding is_healthy
    is_healthy_complete v r u = ground (arith, u.monitored)

    is_valid_instance_sound :
        (v : HeartbeatMessage) (name : Name) (distance : Float64)
        → is_valid_instance H haversine service lat lon v opts ≡ some (name, distance)
        → (r : Registration) × IsUp v r
          × (parse r.hostname ≡ some name)
          × CanServe service lat lon opts r name distance
    unfolding is_valid_instance
    is_valid_instance_sound v name distance h =
        let (_, up, h₁) = >>=-eq-some (return_if (not (is_healthy v))) _ h in
        let (r, registered, h₂) = >>=-eq-some v.registration _ h₁ in
        let (n, parsed, h₃) = >>=-eq-some (parse r.hostname) _ h₂ in
        let (e, can) = check_registration_sound r n (name, distance) h₃ in
        (
          r,
          is_healthy_sound v r (ground arith) registered,
          parsed ∙ ap some (sym e),
          subst (λ m. CanServe service lat lon opts r m distance) (sym e) can,
        )

    -- `isValidInstance` accepts an instance, with a name and a distance, exactly when it is up, its
    -- host name parses to that name, and it fits every option of the request.
    pub is_valid_instance_iff :
        (v : HeartbeatMessage) (name : Name) (distance : Float64)
        → (is_valid_instance H haversine service lat lon v opts ≡ some (name, distance)) ↔ (
            (r : Registration) × IsUp v r
            × (parse r.hostname ≡ some name)
            × CanServe service lat lon opts r name distance)
    unfolding is_valid_instance
    is_valid_instance_iff v name distance = (
      is_valid_instance_sound v name distance,
      λ (r, up, parsed, can). ground (
        arith,
        up.registered,
        is_healthy_complete v r up,
        check_registration_complete r name distance can,
      ),
    )
