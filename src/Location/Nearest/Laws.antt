-- ===== src/Location/Nearest/Laws.antt =====
-- What `Nearest` returns, whatever the random numbers and the order in which maps are walked.
use mathlib.Core.List.{Permᴰ}
use mathlib.Core.List.Permᴰ
use mathlib.Core.Path.{subst}
use locate.Prelude.{
  ℕ, ◌<◌, ◌≤◌, min, String, ◌≡◌, refl, sym, ap, ◌∙◌, ◌↔◌, true, none, some, List, [], ◌∷◌, map,
  arith, length, length-map, eq-nil_of_length, All, All-map, Result, ok, err,
}
use locate.Prelude.Maps.{Map, values, contains}
use locate.Prelude.Perm.{All-perm, length-perm}
use locate.Api.{HeartbeatMessage}
use locate.Float.{Float64}
use locate.Location.Types.{NearestOptions, Site, Target, site_name, Machine}
use locate.Location.Filter.{Entry, always_pick, filter_sites}
use locate.Location.Filter.Groups.{entries}
use locate.Location.Filter.Sound.{filter_sites_sound, filter_sites_complete}
use locate.Location.Sort.{sort_sites, sort_sites-perm}
use locate.Location.Rank.{rank}
use locate.Location.Pick.{TargetInfo, target_of, pick_targets}
use locate.Location.Pick.Spec.{IsPick, pick_targets-IsPick}
use locate.Location.Nearest.{NearestError, no_available_servers, Runtime, check_targets, nearest}
use locate.Location.Nearest.Machines.{
  AreFrom, group-from, rank-machines, length-rank, IsServedBy, picks-served,
}

-- The runtime walks maps in some order, and draws indices in range.
pub record IsFair (R : Runtime) : Type 0 where
  pub shuffles : (l : List Site) → Permᴰ l (R.order l)
  pub in_range : (i n : ℕ) → 0 < n → R.draws.random_int i n < n

check-ok :
    (i : TargetInfo) (ts : List Target) {info : TargetInfo}
    → ok info ≡ check_targets i ts
    → (info ≡ i) × (1 ≤ length ts)
check-ok i [] e = cc
check-ok i (t ∷ ts) e = (cc, omega arith)

check-err :
    (i : TargetInfo) (ts : List Target) → err no_available_servers ≡ check_targets i ts → ts ≡ []
check-err i [] e = refl
check-err i (t ∷ ts) e = cc

AreFrom-nil : (ms : List Machine) → AreFrom [] ms → ⊥
AreFrom-nil [] h = absurd (omega arith)
AreFrom-nil (m ∷ ms) h = elim h.1.0.1 [ ]

contains-nil : (name : String) → contains [] name ≡ true → ⊥
unfolding contains
contains-nil name h = cc

module _ (R : Runtime) (fair : IsFair R) (service : String) (lat lon : Float64)
    (instances : Map HeartbeatMessage) (opts : NearestOptions) where
  -- The entries of the instances that can serve the request.
  abbrev pub valid : List Entry
  valid = entries R.host R.haversine service lat lon opts (values instances)

  filtered : List Site
  filtered = filter_sites R.host R.haversine service lat lon instances opts R.order R.float64

  ordered : List Site
  ordered = rank (sort_sites R.sort filtered)

  filtered-from : All (λ s. AreFrom valid s.machines) filtered
  unfolding filtered
  filtered-from =
      All-map _ _ filtered (λ s. group-from valid (site_name s) s)
        (filter_sites_sound R.host R.haversine service lat lon opts instances R.order R.float64
          fair.shuffles).0

  ordered-from : All (λ s. AreFrom valid s.machines) ordered
  unfolding ordered
  ordered-from =
      rank-machines (AreFrom valid) (sort_sites R.sort filtered)
        (All-perm _ (sort_sites-perm R.sort filtered) filtered-from)

  length-ordered : length ordered ≡ length filtered
  unfolding ordered
  length-ordered =
      length-rank (sort_sites R.sort filtered) ∙ sym (length-perm (sort_sites-perm R.sort filtered))

  picked :
      (info : TargetInfo) × (pick_targets R.url R.draws service ordered ≡ some info)
      × IsPick R.url R.draws service (min 4 (length ordered)) ordered [] none info
  picked =
      pick_targets-IsPick R.url R.draws service fair.in_range ordered
        (All-map _ _ ordered (λ s h. h.0) ordered-from)

  -- `Nearest` never panics: it returns an error or targets.
  pub nearest_total :
      (r : Result NearestError TargetInfo) × (nearest R service lat lon instances opts ≡ some r)
  unfolding nearest ordered filtered
  nearest_total = let (info, e, p) = picked in (check_targets info info.targets, rw e)

  outcome :
      (r : Result NearestError TargetInfo)
      → nearest R service lat lon instances opts ≡ some r
      → r ≡ check_targets picked.0 picked.0.targets
  unfolding nearest ordered filtered
  outcome r h = let (info, e, p) = picked in cc (e, h)

  length-picked : length picked.0.targets ≡ min 4 (length filtered)
  length-picked =
      let p = picked.2 in
      ap length p.targets_of
      ∙ length-map (λ q. target_of q.site q.machine) p.picks
      ∙ p.enough
      ∙ ap (min 4) length-ordered

  served-picked : All (IsServedBy valid) picked.0.targets
  served-picked =
      let p = picked.2 in
      rw p.targets_of (
        picks-served valid p.picks p.rest p.of_site
          (All-perm _ (Permᴰ.symm p.different) ordered-from))

  -- If `Nearest` succeeds it returns at least 1 and at most 4 targets, and each is at a machine of
  -- an instance that can serve the request.
  pub nearest-ok :
      (info : TargetInfo)
      → nearest R service lat lon instances opts ≡ some (ok info)
      → (1 ≤ length info.targets) × (length info.targets ≤ 4) × All (IsServedBy valid) info.targets
  nearest-ok info h =
      let (same, some_target) = check-ok picked.0 picked.0.targets (outcome (ok info) h) in
      subst
        (λ i. (1 ≤ length i.targets) × (length i.targets ≤ 4) × All (IsServedBy valid) i.targets)
        (sym same) (some_target, omega (arith, length-picked), served-picked)

  filtered-empty : (valid ≡ []) → filtered ≡ []
  filtered-empty none_valid = go filtered filtered-from
    where
      go : (ss : List Site) → All (λ s. AreFrom valid s.machines) ss → ss ≡ []
      go [] h = refl
      go (s ∷ ss) h =
          absurd (AreFrom-nil s.machines (subst (λ es. AreFrom es s.machines) none_valid h.0))

  valid-empty : always_pick opts ≡ true → filtered ≡ [] → valid ≡ []
  unfolding filtered
  valid-empty always none_kept = go valid (
      subst (λ ss. All (λ e. contains (map site_name ss) e.registration.site ≡ true) valid)
        none_kept
        (filter_sites_complete R.host R.haversine service lat lon opts instances R.order R.float64
          fair.shuffles always))
    where
      go : (es : List Entry) → All (λ e. contains [] e.registration.site ≡ true) es → es ≡ []
      go [] h = refl
      go (e ∷ es) h = absurd (contains-nil e.registration.site h.0)

  -- Where sites are not dropped at random (the request limits the sites, the machine type to virtual,
  -- or the organisation), `Nearest` reports that no server is available exactly when no instance can
  -- serve the request.
  pub nearest-unavailable :
      always_pick opts ≡ true
      → (nearest R service lat lon instances opts ≡ some (err no_available_servers)) ↔ (valid ≡ [])
  nearest-unavailable always = (
    λ h. valid-empty always (
        eq-nil_of_length filtered (
          omega
            (arith, length-picked, ap length (check-err picked.0 picked.0.targets (outcome _ h))))),
    λ none_valid.
        let (r, e) = nearest_total in
        let empty : picked.0.targets ≡ [] =
          eq-nil_of_length picked.0.targets
            (omega (arith, length-picked, ap length (filtered-empty none_valid))) in
        e ∙ ap some (outcome r e ∙ ap (check_targets picked.0) empty),
  )
